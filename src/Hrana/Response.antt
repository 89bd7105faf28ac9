-- ===== src/Hrana/Response.antt =====
-- libsql/internal/hrana: stmt_result.go, batch_result.go, stream_result.go, pipeline_response.go.
pub mod Wire
pub mod Objects
pub mod RoundTrip
pub mod Tests
use libsql_client_go.Base.{ℕ, Option, none, some, List, [], ◌∷◌, if◌then◌else◌}
use libsql_client_go.Base.Texts.{Text, codes, text_eq}
use libsql_client_go.Base.Results.{Result, ok, err, ◌>>=◌}
use libsql_client_go.Base.Decimal.{ℤ, pos, parse_int, parse_uint}
use libsql_client_go.Hrana.Value.{Value, Payload, absent, float, other}
use libsql_client_go.Hrana.Json.{
  Json, null, boolean, number, str, DecodeError, malformed, nil_pointer, find, find_or_null,
  as_object, as_items, as_text, as_text_pointer, as_int32, each, as_pointer,
}

pub record Column : Type 0 where
  pub name : Option Text
  pub decltype : Option Text

pub record StmtResult : Type 0 where
  pub cols : List Column
  pub rows : List (List Value)
  pub affected_row_count : ℤ
  pub last_insert_row_id : Option Text
  pub replication_index : Option ℕ

pub record HranaError : Type 0 where
  pub message : Text
  pub code : Option Text

pub record BatchResult : Type 0 where
  pub step_results : List (Option StmtResult)
  pub step_errors : List (Option HranaError)
  pub replication_index : Option ℕ

-- `result` is raw JSON, `none` where the field is missing.
pub record StreamResponse : Type 0 where
  pub kind : Text
  pub result : Option Json

pub record StreamResult : Type 0 where
  pub kind : Text
  pub response : Option StreamResponse
  pub error : Option HranaError

pub record PipelineResponse : Type 0 where
  pub baton : Text
  pub base_url : Text
  pub results : List StreamResult

-- `GetLastInsertRowId`: 0 where the id is missing or is no int64.
unfoldable pub get_last_insert_row_id : StmtResult → ℤ
get_last_insert_row_id r = elim r.last_insert_row_id [
  | none ↦ pos 0
  | some s ↦ elim (parse_int s) [ none ↦ pos 0 | some i ↦ i ]
]

-- How encoding/json reads a number literal as a float64, and the conversion uint64(v) of that.
pub record Numbers : Type 0 where
  pub float_of : Text → ℕ
  pub uint64_of : Text → ℕ

-- Why a response gives no result.
pub data ResultError : Type 0 where
  invalid_type : Text → ResultError
  undecodable : ResultError
  step_error : Text → ResultError
  -- the dereference of nil on a JSON null
  result_panic : ResultError

decoded {ℓ} : {A : Type ℓ} → Result DecodeError A → Result ResultError A
decoded (ok a) = ok a
decoded (err malformed) = err undecodable
decoded (err nil_pointer) = err result_panic

-- json.Unmarshal of the raw result: a missing one is an empty text, which is no JSON.
unfoldable pub unmarshal {ℓ} :
    {A : Type ℓ} → (Json → Result DecodeError A) → Option Json → Result ResultError A
unfolding decoded
unmarshal decode none = err undecodable
unmarshal decode (some j) = decoded (decode j)

-- The first step error, if any.
unfoldable pub first_error : List (Option HranaError) → Option Text
first_error [] = none
first_error (none ∷ rest) = first_error rest
first_error (some e ∷ rest) = some e.message

module _ (numbers : Numbers) where
  open numbers use {float_of, uint64_of}

  -- The `any` of a Value.
  unfoldable pub as_payload : Json → Payload
  as_payload null = absent
  as_payload (str s) = Payload.str s
  as_payload (number s) = float (float_of s)
  as_payload (boolean b) = other (if b then codes "true" else codes "false")
  as_payload _ = other []

  unfoldable pub as_value : Json → Result DecodeError Value
  unfolding as_payload
  as_value j = do
    f ← as_object j
    kind ← as_text (find_or_null (codes "type") f)
    base64 ← as_text_pointer (find_or_null (codes "base64") f)
    ok (record {
      kind = kind;
      value = as_payload (find_or_null (codes "value") f);
      base64 = base64;
    })

  unfoldable pub as_column : Json → Result DecodeError Column
  as_column j = do
    f ← as_object j
    name ← as_text_pointer (find_or_null (codes "name") f)
    decltype ← as_text_pointer (find_or_null (codes "decltype") f)
    ok (record { name = name; decltype = decltype })

  unfoldable pub as_row : Json → Result DecodeError (List Value)
  unfolding as_value
  as_row j = do xs ← as_items j; each as_value xs

  -- The switch of both `UnmarshalJSON`: a number, a string, or nothing.
  unfoldable pub as_replication_index : Json → Result DecodeError (Option ℕ)
  as_replication_index null = ok none
  as_replication_index (number s) = ok (some (uint64_of s))
  as_replication_index (str []) = ok none
  as_replication_index (str (c ∷ s)) = elim (parse_uint (c ∷ s)) [
    | none ↦ err malformed
    | some n ↦ ok (some n)
  ]
  as_replication_index _ = err malformed

  -- `StmtResult.UnmarshalJSON`. On a JSON null it sets its own pointer to nil and reads through it.
  unfoldable pub as_stmt_result : Json → Result DecodeError StmtResult
  unfolding as_column as_row
  as_stmt_result null = err nil_pointer
  as_stmt_result j = do
    f ← as_object j
    col_items ← as_items (find_or_null (codes "cols") f)
    cols ← each as_column col_items
    row_items ← as_items (find_or_null (codes "rows") f)
    rows ← each as_row row_items
    affected ← as_int32 (find_or_null (codes "affected_row_count") f)
    last ← as_text_pointer (find_or_null (codes "last_insert_rowid") f)
    index ← as_replication_index (find_or_null (codes "replication_index") f)
    ok (record {
      cols = cols;
      rows = rows;
      affected_row_count = affected;
      last_insert_row_id = last;
      replication_index = index;
    })

  unfoldable pub as_hrana_error : Json → Result DecodeError HranaError
  as_hrana_error j = do
    f ← as_object j
    message ← as_text (find_or_null (codes "message") f)
    code ← as_text_pointer (find_or_null (codes "code") f)
    ok (record { message = message; code = code })

  -- `BatchResult.UnmarshalJSON`
  unfoldable pub as_batch_result : Json → Result DecodeError BatchResult
  as_batch_result null = err nil_pointer
  as_batch_result j = do
    f ← as_object j
    result_items ← as_items (find_or_null (codes "step_results") f)
    results ← each (as_pointer as_stmt_result) result_items
    error_items ← as_items (find_or_null (codes "step_errors") f)
    errors ← each (as_pointer as_hrana_error) error_items
    index ← as_replication_index (find_or_null (codes "replication_index") f)
    ok (record { step_results = results; step_errors = errors; replication_index = index })

  unfoldable pub as_stream_response : Json → Result DecodeError StreamResponse
  as_stream_response j = do
    f ← as_object j
    kind ← as_text (find_or_null (codes "type") f)
    ok (record { kind = kind; result = find (codes "result") f })

  unfoldable pub as_stream_result : Json → Result DecodeError StreamResult
  unfolding as_stream_response
  as_stream_result j = do
    f ← as_object j
    kind ← as_text (find_or_null (codes "type") f)
    response ← as_pointer as_stream_response (find_or_null (codes "response") f)
    error ← as_pointer as_hrana_error (find_or_null (codes "error") f)
    ok (record { kind = kind; response = response; error = error })

  unfoldable pub as_pipeline_response : Json → Result DecodeError PipelineResponse
  unfolding as_stream_result
  as_pipeline_response j = do
    f ← as_object j
    baton ← as_text (find_or_null (codes "baton") f)
    base_url ← as_text (find_or_null (codes "base_url") f)
    items ← as_items (find_or_null (codes "results") f)
    results ← each as_stream_result items
    ok (record { baton = baton; base_url = base_url; results = results })

  unfoldable pub execute_result : StreamResponse → Result ResultError StmtResult
  unfolding unmarshal as_stmt_result
  execute_result r =
      if text_eq r.kind (codes "execute")
      then unmarshal as_stmt_result r.result
      else err (invalid_type r.kind)

  unfoldable pub batch_result : StreamResponse → Result ResultError BatchResult
  unfolding unmarshal as_batch_result first_error
  batch_result r =
      if text_eq r.kind (codes "batch")
      then (unmarshal as_batch_result r.result >>= λ b. elim (first_error b.step_errors) [
        | none ↦ ok b
        | some m ↦ err (step_error m)
      ])
      else err (invalid_type r.kind)
