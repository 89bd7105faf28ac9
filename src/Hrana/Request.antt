-- ===== src/Hrana/Request.antt =====
-- libsql/internal/hrana: stream_request.go and pipeline_request.go.
pub mod Transaction
pub mod Read
pub mod Carries
mod Tests
use libsql_client_go.Base.{
  ℕ, zero, suc, ◌+◌, ◌-◌, Bool, true, false, Option, none, some, List, [], ◌∷◌, ◌++◌, ltb,
  if◌then◌else◌, length, get_elem?,
}
use libsql_client_go.Base.Texts.{Text, codes}
use libsql_client_go.Base.Results.{Result, ok, err, ◌>>=◌}
use libsql_client_go.Base.Decimal.{ℤ, pos, negsuc}
use libsql_client_go.Params.{Params}
use libsql_client_go.Hrana.Value.{Clock}
use libsql_client_go.Hrana.Batch.{
  Stmt, Batch, BatchCondition, condition, null, ref, end, add_step, add_args,
}

pub record StreamRequest : Type 0 where
  pub kind : Text
  pub stmt : Option Stmt
  pub batch : Option Batch
  pub sql : Option Text
  pub sql_id : Option ℤ

pub record PipelineRequest : Type 0 where
  pub baton : Text
  pub requests : List StreamRequest

-- `PipelineRequest.Add`
abbrev pub add_request : PipelineRequest → StreamRequest → PipelineRequest
add_request m r = record m { requests = m.requests ++ (r ∷ []) }

abbrev pub close_stream : StreamRequest
close_stream = record { kind = codes "close"; stmt = none; batch = none; sql = none; sql_id = none }

abbrev pub store_sql_stream : Text → ℤ → StreamRequest
store_sql_stream sql id = record {
  kind = codes "store_sql";
  stmt = none;
  batch = none;
  sql = some sql;
  sql_id = some id;
}

abbrev pub close_stored_sql_stream : ℤ → StreamRequest
close_stored_sql_stream id = record {
  kind = codes "close_sql";
  stmt = none;
  batch = none;
  sql = none;
  sql_id = some id;
}

-- A new `Stmt` of a text.
abbrev pub stmt_of : Text → Bool → Stmt
stmt_of sql want_rows = record {
  sql = some sql;
  sql_id = none;
  args = [];
  named_args = [];
  want_rows = want_rows;
  replication_index = none;
}

abbrev pub execute_request : Stmt → StreamRequest
execute_request s = record {
  kind = codes "execute";
  stmt = some s;
  batch = none;
  sql = none;
  sql_id = none;
}

-- int32(i - 1) on a 64-bit int: the conversion wraps, and no batch here is that long.
abbrev pub step_before : ℕ → ℤ
step_before zero = negsuc 0
step_before (suc i) = pos i

-- {Type: "ok", Step: &step} and {Type: "not", Cond: &c}
abbrev pub if_ok : ℤ → BatchCondition
if_ok step = condition (codes "ok") (some step) null end

abbrev pub if_not : BatchCondition → BatchCondition
if_not c = condition (codes "not") none (ref c) end

abbrev pub empty_batch : Batch
empty_batch = record { steps = []; replication_index = none }

-- A value that cannot be sent; or the panic of `params[idx]` past the parameters.
pub data BatchError : Type 0 where
  bad_value : Text → BatchError
  index_panic : BatchError

abbrev lift_value {ℓ} : {A : Type ℓ} → Result Text A → Result BatchError A
lift_value (ok a) = ok a
lift_value (err e) = err (bad_value e)

-- In a transaction each statement runs if the one before it succeeded.
abbrev pub step_condition : Bool → ℕ → Option BatchCondition
step_condition false idx = none
step_condition true zero = none
step_condition true (suc i) = some (if_ok (pos i))

-- The ROLLBACK step at the end of a transaction, which runs unless the last statement succeeded.
abbrev pub add_rollback : Bool → ℕ → Batch → Batch
add_rollback false size b = b
add_rollback true size b =
    add_step b (stmt_of (codes "ROLLBACK") false) (some (if_not (if_ok (step_before size))))

module _ (clock : Clock) where
  open clock use {Time}

  unfoldable pub execute_stream : Text → Option (Params Time) → Bool → Result Text StreamRequest
  execute_stream sql none want_rows = ok (execute_request (stmt_of sql want_rows))
  execute_stream sql (some p) want_rows = do
    s ← add_args clock p (stmt_of sql want_rows)
    ok (execute_request s)

  unfoldable pub execute_stored_stream : ℤ → Params Time → Bool → Result Text StreamRequest
  execute_stored_stream id p want_rows = do
    s ← add_args clock p (record {
      sql = none;
      sql_id = some id;
      args = [];
      named_args = [];
      want_rows = want_rows;
      replication_index = none;
    })
    ok (execute_request s)

  -- `stmt.AddArgs(params[idx])`, where there are parameters.
  pub stmt_with : Bool → Option (Params Time) → Stmt → Result BatchError Stmt
  stmt_with false p s = ok s
  stmt_with true none s = err index_panic
  stmt_with true (some p) s = lift_value (add_args clock p s)

  -- The loop of `BatchStream`, at `idx`.
  unfoldable pub batch_loop :
      List (Params Time) → Bool → Bool → List Text → ℕ → Batch → Result BatchError Batch
  unfolding stmt_with
  batch_loop params want_rows transactional [] idx b = ok b
  batch_loop params want_rows transactional (sql ∷ sqls) idx b = do
    s ← stmt_with (ltb 0 (length params)) (get_elem? params idx) (stmt_of sql want_rows)
    batch_loop params want_rows transactional sqls (suc idx)
        (add_step b s (step_condition transactional idx))

  unfoldable pub batch_stream :
      List Text → List (Params Time) → Bool → Bool → Result BatchError StreamRequest
  unfolding batch_loop
  batch_stream sqls params want_rows transactional = do
    b ← batch_loop params want_rows transactional sqls 0 empty_batch
    ok (record {
      kind = codes "batch";
      stmt = none;
      batch = some (add_rollback transactional (length sqls) b);
      sql = none;
      sql_id = none;
    })
