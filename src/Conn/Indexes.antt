-- ===== src/Conn/Indexes.antt =====
-- The replication index of the messages that `executeStmt` sends.
use libsql_client_go.Base.{
  ℕ, suc, ◌<◌, ◌≤◌, ◌≡◌, refl, ap, ◌∙◌, Bool, true, false, not, Option, none, some, List, [], ◌∷◌,
  map, get_elem?, ltb, length,
}
use libsql_client_go.Base.Texts.{Text}
use libsql_client_go.Base.Results.{ok, Ensures, >>=-Ensures, Ensures-ok, Ensures-nothing}
use libsql_client_go.Params.{Params}
use libsql_client_go.Hrana.Value.{Clock}
use libsql_client_go.Hrana.Batch.{Stmt, Batch, add_args, add_step}
use libsql_client_go.Hrana.Batch.Index.{add_args-Without}
use libsql_client_go.Hrana.Request.{
  StreamRequest, PipelineRequest, add_request, execute_stream, batch_stream, batch_loop, stmt_of,
  stmt_with, step_condition, add_rollback, empty_batch,
}
use libsql_client_go.Hrana.Response.{PipelineResponse, StreamResult}
use libsql_client_go.Conn.World.{Env, World}
use libsql_client_go.Conn.Replies.{index_of}
use libsql_client_go.Conn.Send.{
  send, prepare, request_with_index, stmt_with_index, batch_with_index,
}
use libsql_client_go.Conn.Chunks.{empty_message}
use libsql_client_go.Conn.Execute.{message_of}
use libsql_client_go.Conn.Messages.{or_bad_value, or_bad_batch}
use libsql_client_go.Conn.Runs.{after_calls}
use libsql_client_go.Conn.Growth.{prepare-reads_own_writes}

-- The index that a request asks for: of its statement, or else of its batch.
unfoldable pub asked_index : StreamRequest → Option ℕ
asked_index r = elim r.stmt [
  | some s ↦ s.replication_index
  | none ↦ elim r.batch [ none ↦ none | some b ↦ b.replication_index ]
]

-- A statement or a batch without an index.
data Bare : StreamRequest → Type 0 where
  bare_stmt : {r : StreamRequest} (s : Stmt) → r.stmt ≡ some s → s.replication_index ≡ none → Bare r
  bare_batch :
      {r : StreamRequest} (b : Batch)
      → r.stmt ≡ none
      → r.batch ≡ some b
      → b.replication_index ≡ none
      → Bare r

Bare-index : (n : ℕ) (r : StreamRequest) → Bare r → asked_index (request_with_index n r) ≡ some n
unfolding asked_index request_with_index stmt_with_index batch_with_index
Bare-index n r (bare_stmt s e i) = rw (request_with_index, e, i) refl
Bare-index n r (bare_batch b e k i) = rw (request_with_index, e, k, i) refl

module _ (clock : Clock) where
  open clock use {Time}

  batch_loop-index :
      (ps : List (Params Time)) (want_rows transactional : Bool) (sqls : List Text) (idx : ℕ)
      (b : Batch)
      → b.replication_index ≡ none
      → Ensures
          (λ b'. b'.replication_index ≡ none)
          (batch_loop clock ps want_rows transactional sqls idx b)
  unfolding batch_loop
  batch_loop-index ps want_rows transactional [] idx b h = h
  batch_loop-index ps want_rows transactional (t ∷ ts) idx b h =
      let made = stmt_with clock (ltb 0 (length ps)) (get_elem? ps idx) (stmt_of t want_rows) in
      >>=-Ensures {B = Batch} (λ (s : Stmt). Unit {0}) (λ b'. b'.replication_index ≡ none) made
        (λ s.
          batch_loop clock ps want_rows transactional ts (suc idx)
            (add_step b s (step_condition transactional idx)))
        (Ensures-nothing made)
        λ s u.
          batch_loop-index ps want_rows transactional ts (suc idx)
            (add_step b s (step_condition transactional idx)) h

  add_rollback-index :
      (transactional : Bool) (size : ℕ) (b : Batch)
      → b.replication_index ≡ none
      → (add_rollback transactional size b).replication_index ≡ none
  add_rollback-index true size b h = h
  add_rollback-index false size b h = h

  execute_stream-Bare :
      (sql : Text) (o : Option (Params Time)) (want_rows : Bool)
      → Ensures Bare (execute_stream clock sql o want_rows)
  unfolding execute_stream
  execute_stream-Bare sql none want_rows = bare_stmt (stmt_of sql want_rows) refl refl
  execute_stream-Bare sql (some p) want_rows =
      >>=-Ensures _ _ (add_args clock p (stmt_of sql want_rows)) _
        (add_args-Without clock p (stmt_of sql want_rows) refl) λ s h. bare_stmt s refl h

  batch_stream-Bare :
      (sqls : List Text) (ps : List (Params Time)) (want_rows transactional : Bool)
      → Ensures Bare (batch_stream clock sqls ps want_rows transactional)
  unfolding batch_stream
  batch_stream-Bare sqls ps want_rows transactional =
      >>=-Ensures _ _ (batch_loop clock ps want_rows transactional sqls 0 empty_batch) _
        (batch_loop-index ps want_rows transactional sqls 0 empty_batch refl)
        λ b h. bare_batch _ refl refl (add_rollback-index transactional _ b h)

module _ (env : Env) where
  open env use {clock}
  open clock use {Time}

  message_of-Bare :
      (schema_db want_rows : Bool) (stmts : List Text) (ps : List (Params Time))
      → Ensures Bare (message_of env schema_db stmts ps want_rows)
  unfolding message_of
  message_of-Bare schema_db want_rows [] ps =
      or_bad_batch env Bare (batch_stream clock [] ps want_rows (not schema_db))
        (batch_stream-Bare clock [] ps want_rows (not schema_db))
  message_of-Bare schema_db want_rows (t ∷ []) [] =
      or_bad_value env Bare (execute_stream clock t none want_rows)
        (execute_stream-Bare clock t none want_rows)
  message_of-Bare schema_db want_rows (t ∷ []) (p ∷ ps) =
      or_bad_value env Bare (execute_stream clock t (some p) want_rows)
        (execute_stream-Bare clock t (some p) want_rows)
  message_of-Bare schema_db want_rows (t ∷ u ∷ ts) ps =
      or_bad_batch env Bare (batch_stream clock (t ∷ u ∷ ts) ps want_rows (not schema_db))
        (batch_stream-Bare clock (t ∷ u ∷ ts) ps want_rows (not schema_db))

  -- A call has returned a response in which some result reports a replication index above 0, and any further
  -- calls have followed on the connection. Then the message that `executeStmt` builds for a text which it does
  -- not run in chunks goes out with a single request that asks for an index, and for none below the reported
  -- one.
  pub message_of-reads_own_writes :
      (msg : PipelineRequest) (b : Bool) (w v : World) (p : PipelineResponse)
      → send env msg b w ≡ (ok p, v)
      → (k : ℕ) (r : StreamResult) (i : ℕ) → get_elem? p.results k ≡ some r
      → index_of env r ≡ some i
      → 0 < i
      → (calls : List (PipelineRequest × Bool)) (schema_db want_rows : Bool) (stmts : List Text)
        (ps : List (Params Time)) (later : StreamRequest)
      → message_of env schema_db stmts ps want_rows ≡ ok later
      → (j : ℕ) × (i ≤ j)
        × (map asked_index
              (prepare (after_calls env calls v).conn (add_request empty_message later)).requests
            ≡ some j ∷ [])
  message_of-reads_own_writes msg b w v p sent k r i at e positive calls schema_db want_rows stmts
        ps later m =
      let (j, above, same) =
        prepare-reads_own_writes env msg b w v p sent k r i at e positive calls
          (add_request empty_message later) in
      let bare =
        Ensures-ok Bare (message_of env schema_db stmts ps want_rows)
          (message_of-Bare schema_db want_rows stmts ps) m in
      (j, above, ap (map asked_index) same ∙ ap (λ o. o ∷ []) (Bare-index j later bare))
