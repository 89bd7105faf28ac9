-- ===== src/Hrana/Response/Tests.antt =====
-- A batch whose second step failed, written by a server and read.
use libsql_client_go.Base.{◌≡◌, refl, inl, inr, false, none, some, [], ◌∷◌, Bool-cases, arith}
use libsql_client_go.Base.Texts.{codes, text_eq, to_lower, text_eq_iff}
use libsql_client_go.Base.Results.{ok, err}
use libsql_client_go.Base.Decimal.{pos}
use libsql_client_go.Params.Extract.{member}
use libsql_client_go.Hrana.Value.{Payload}
use libsql_client_go.Hrana.Json.{number, field, end, find}
use libsql_client_go.Hrana.Response.{
  StmtResult, BatchResult, Numbers, batch_result, first_error, step_error,
}
use libsql_client_go.Hrana.Response.Wire.{Server, IsBatchResult, write_batch_result}
use libsql_client_go.Hrana.Response.Objects.{known_names}
use libsql_client_go.Hrana.Response.RoundTrip.{
  Ignored, ReadsFloats, batch_result-write_batch_result,
}

-- A float is written as its own code.
abbrev pub toy_numbers : Numbers
toy_numbers = record { float_of = λ s. elim s [ [] ↦ 0 | c ∷ t ↦ c ]; uint64_of = λ s. 0 }

abbrev pub toy_server : Server
toy_server = record {
  literal = λ x. x ∷ [];
  extra = field (codes "rows_read") (number (codes "4")) end;
}

rows_read_is_unknown : member (codes "rows_read") known_names ≡ false
unfolding member text_eq
rows_read_is_unknown = refl

pub toy_server-Ignored : Ignored toy_numbers toy_server
unfolding Ignored find to_lower
toy_server-Ignored k m = elim (Bool-cases (text_eq (codes "rows_read") k)) [
  | inl e ↦ absurd (cc (m, rows_read_is_unknown, (text_eq_iff (codes "rows_read") k).0 e))
  | inr e ↦ rw e refl
]

pub toy_server-ReadsFloats : ReadsFloats toy_numbers toy_server
unfolding ReadsFloats
toy_server-ReadsFloats x h = refl

-- One row with a float, and no name for its column.
abbrev one_float : StmtResult
one_float = record {
  cols = record { name = none; decltype = some (codes "REAL") } ∷ [];
  rows = (record { kind = codes "float"; value = Payload.float 5; base64 = none } ∷ []) ∷ [];
  affected_row_count = pos 0;
  last_insert_row_id = none;
  replication_index = some 12;
}

abbrev second_failed : BatchResult
second_failed = record {
  step_results = some one_float ∷ none ∷ [];
  step_errors = none ∷ some (record { message = codes "no such table"; code = none }) ∷ [];
  replication_index = none;
}

second_failed-IsBatchResult : IsBatchResult second_failed
second_failed-IsBatchResult = record {
  results = (
    record {
      values = (((omega arith, omega arith), tt), tt);
      affected = omega arith;
      index = omega arith;
    },
    (tt, tt),
  );
  index = tt;
}

batch_result-write_batch_result_example :
    batch_result toy_numbers
      (record { kind = codes "batch"; result = some (write_batch_result toy_server second_failed) })
    ≡ elim (first_error second_failed.step_errors) [
      | none ↦ ok second_failed
      | some m ↦ err (step_error m)
    ]
batch_result-write_batch_result_example =
    batch_result-write_batch_result toy_numbers toy_server toy_server-Ignored toy_server-ReadsFloats
      second_failed second_failed-IsBatchResult
