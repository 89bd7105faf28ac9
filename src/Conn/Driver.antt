-- ===== src/Conn/Driver.antt =====
-- The methods of a connection, a statement and a transaction that database/sql calls.
use libsql_client_go.Base.{
  ℕ, ◌+◌, ◌-◌, Bool, true, false, not, ◌&&◌, Option, none, some, List, [], ◌∷◌, take, ◌==◌,
  if◌then◌else◌, length, leb,
}
use libsql_client_go.Base.Texts.{Text, codes, text_eq, is_empty}
use libsql_client_go.Base.Results.{Result, ok, err}
use libsql_client_go.Base.Decimal.{ℤ, pos, add_int64, is_positive}
use libsql_client_go.Values.{GoValue, NamedValue}
use libsql_client_go.Splitter.{split_statement}
use libsql_client_go.Params.Extract.{ParamsInfo, parse_statement}
use libsql_client_go.Hrana.Response.{
  PipelineResponse, StreamResult, StreamResponse, StmtResult, BatchResult, get_last_insert_row_id,
  execute_result, batch_result, ResultError, result_panic,
}
use libsql_client_go.Conn.World.{
  Env, Fault, bad_params, bad_result, unknown_response, not_one_statement, read_only_unsupported,
  isolation_unsupported, panicked, stuck, Conn, Exec, pure, raise, ◌>>=◌,
}
use libsql_client_go.Conn.Chunks.{spawn_close, close_stream_of}
use libsql_client_go.Conn.Execute.{execute_stmt}
use libsql_client_go.Conn.Rows.{Rows, of_stmt, of_batch, new_rows}

-- `Connect`
abbrev pub connect : Text → Text → Text → Bool → Text → List (Text × Text) → Conn
connect url jwt host schema_db key headers = record {
  url = url;
  jwt = jwt;
  host = host;
  schema_db = schema_db;
  remote_encryption_key = key;
  request_headers = headers;
  baton = [];
  stream_closed = false;
  replication_index = 0;
}

-- `IsValid`
unfoldable pub is_valid : Conn → Bool
is_valid c = not c.stream_closed

-- `result` of libsql/internal/http/shared/result.go
pub record ExecResult : Type 0 where
  pub id : ℤ
  pub changes : ℤ

-- A decoding that panics, and one that fails.
abbrev pub result_fault : ResultError → Fault
result_fault result_panic = panicked
result_fault e = bad_result e

-- The loop of `ExecContext` over step results; a missing one is dereferenced.
unfoldable pub sum_results : List (Option StmtResult) → ExecResult → Result Fault ExecResult
sum_results [] so_far = ok so_far
sum_results (none ∷ rest) so_far = err panicked
sum_results (some r ∷ rest) so_far = sum_results rest (record {
  id = if is_positive (get_last_insert_row_id r) then get_last_insert_row_id r else so_far.id;
  changes = add_int64 so_far.changes r.affected_row_count;
})

abbrev first_response : List StreamResult → Result Fault StreamResponse
first_response [] = err panicked
first_response (r ∷ rs) = elim r.response [ none ↦ err panicked | some s ↦ ok s ]

-- In a transaction the last step is the ROLLBACK, which is dropped. The slice panics if there is
-- none.
abbrev pub without_last {ℓ} : {A : Type ℓ} → List A → List A
without_last xs = take (length xs - 1) xs

unfoldable pub drop_rollback : BatchResult → Result Fault BatchResult
drop_rollback b =
    if leb 1 (length b.step_results) && leb 1 (length b.step_errors)
    then ok (record b {
      step_results = without_last b.step_results;
      step_errors = without_last b.step_errors;
    })
    else err panicked

module _ (env : Env) where
  open env use {clock, numbers, tokens, end_token, get_text}
  open clock use {Time}

  unfoldable pub exec_response : Bool → StreamResponse → Result Fault ExecResult
  unfolding sum_results
  exec_response schema_db r =
      if text_eq r.kind (codes "execute")
      then elim (execute_result numbers r) [
        | err e ↦ err (result_fault e)
        | ok s ↦ ok (record { id = get_last_insert_row_id s; changes = s.affected_row_count })
      ]
      else if text_eq r.kind (codes "batch")
      then elim (batch_result numbers r) [
        | err e ↦ err (result_fault e)
        | ok b ↦
            let read = if schema_db then b.step_results else without_last b.step_results in
            sum_results read (record { id = pos 0; changes = pos 0 })
      ]
      else err (unknown_response r.kind)

  unfoldable pub query_response : Bool → StreamResponse → Result Fault Rows
  unfolding execute_result batch_result drop_rollback
  query_response schema_db r =
      if text_eq r.kind (codes "execute")
      then elim (execute_result numbers r) [
        | err e ↦ err (result_fault e)
        | ok s ↦ ok (new_rows (of_stmt s))
      ]
      else if text_eq r.kind (codes "batch")
      then elim (batch_result numbers r) [
        | err e ↦ err (result_fault e)
        | ok b ↦ elim (if schema_db then ok b else drop_rollback b) [
          | err f ↦ err f
          | ok kept ↦ ok (new_rows (of_batch kept))
        ]
      ]
      else err (unknown_response r.kind)

  -- What the two methods make of the first result.
  abbrev pub exec_answer : PipelineResponse → Exec ExecResult
  exec_answer p w = (
    elim (first_response p.results) [ err f ↦ err f | ok r ↦ exec_response w.conn.schema_db r ],
    w,
  )

  abbrev pub query_answer : PipelineResponse → Exec Rows
  query_answer p w = (
    elim (first_response p.results) [ err f ↦ err f | ok r ↦ query_response w.conn.schema_db r ],
    w,
  )

  unfoldable pub exec_context : Text → List (NamedValue Time) → Exec ExecResult
  unfolding execute_stmt exec_response
  exec_context query args = execute_stmt env query args false >>= exec_answer

  unfoldable pub query_context : Text → List (NamedValue Time) → Exec Rows
  unfolding execute_stmt query_response
  query_context query args = execute_stmt env query args true >>= query_answer

  unfoldable pub ping : Exec {0} Unit
  unfolding execute_stmt
  ping = do p ← execute_stmt env (codes "SELECT 1") [] false; pure tt

  -- `hranaV2Stmt`. `num_input` is `none` for -1.
  pub record PreparedStmt : Type 0 where
    pub num_input : Option ℕ
    pub sql : Text

  abbrev pub prepared : Text → List ParamsInfo → Result Fault PreparedStmt
  prepared query [] = err panicked
  prepared query (info ∷ infos) = elim info.named_parameters [
    | [] ↦ ok (record { num_input = some info.positional_parameters_count; sql = query })
    | n ∷ ns ↦ ok (record { num_input = none; sql = query })
  ]

  -- `PrepareContext`
  unfoldable pub prepare_context : Text → Result Fault PreparedStmt
  unfolding split_statement parse_statement
  prepare_context query = elim (split_statement (get_text query) (tokens query) (end_token query)) [
    | none ↦ err stuck
    | some (stmts, info) ↦ elim (parse_statement tokens stmts) [
      | err e ↦ err (bad_params e)
      | ok infos ↦
          if length stmts == 1 then prepared query infos else err (not_one_statement (length stmts))
    ]
  ]

  -- `convertToNamed`: the ordinals start at 0.
  unfoldable pub convert_from : ℕ → List (GoValue Time) → List (NamedValue Time)
  convert_from idx [] = []
  convert_from idx (v ∷ vs) =
      record { name = []; ordinal = idx; value = v } ∷ convert_from (idx + 1) vs

  abbrev pub convert_to_named : List (GoValue Time) → List (NamedValue Time)
  convert_to_named vs = convert_from 0 vs

  abbrev pub stmt_exec : PreparedStmt → List (GoValue Time) → Exec ExecResult
  stmt_exec s vs = exec_context s.sql (convert_to_named vs)

  abbrev pub stmt_query : PreparedStmt → List (GoValue Time) → Exec Rows
  stmt_query s vs = query_context s.sql (convert_to_named vs)

  abbrev execute_text : Text → Exec {0} Unit
  execute_text sql = do r ← exec_context sql []; pure tt

  -- `BeginTx`: read-only, and whether the isolation level is the default one.
  unfoldable pub begin_tx : Bool → Bool → Exec {0} Unit
  unfolding exec_context
  begin_tx true default_level = raise read_only_unsupported
  begin_tx false false = raise isolation_unsupported
  begin_tx false true = execute_text (codes "BEGIN")

  unfoldable pub commit : Exec {0} Unit
  unfolding exec_context
  commit = execute_text (codes "COMMIT")

  unfoldable pub rollback : Exec {0} Unit
  unfolding exec_context
  rollback = execute_text (codes "ROLLBACK")

  -- `Close`: the stream is closed too, and the connection keeps its baton.
  unfoldable pub close : Exec {0} Unit
  close w = if is_empty w.conn.baton then (ok tt, w) else (ok tt, spawn_close env w)

  -- `ResetSession`
  unfoldable pub reset_session : Exec {0} Unit
  unfolding close_stream_of
  reset_session w = (ok tt, close_stream_of env w)
