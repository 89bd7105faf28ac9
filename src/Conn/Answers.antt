-- ===== src/Conn/Answers.antt =====
-- `ExecContext` with a server that answers: from the text of the reply to the result.
use libsql_client_go.Base.{
  ℕ, ◌^◌, ◌<◌, ◌≤◌, ◌≡◌, refl, ap, ◌∙◌, Bool, true, false, not, ◌&&◌, Option, none, some, List, [],
  ◌∷◌, ◌++◌, map, if◌then◌else◌, ltb, if_both, length, arith,
}
use libsql_client_go.Base.Texts.{Text, codes, text_eq, is_empty}
use libsql_client_go.Base.Results.{ok}
use libsql_client_go.Base.Decimal.{pos}
use libsql_client_go.Values.{NamedValue}
use libsql_client_go.Params.{Params}
use libsql_client_go.Hrana.Json.{Json}
use libsql_client_go.Hrana.Request.{PipelineRequest, StreamRequest, add_request}
use libsql_client_go.Hrana.Response.{
  StmtResult, BatchResult, PipelineResponse, as_pipeline_response, batch_result, first_error,
}
use libsql_client_go.Hrana.Response.Wire.{
  Server, IsBatchResult, write_batch_result, write_pipeline_response,
}
use libsql_client_go.Hrana.Response.RoundTrip.{
  Ignored, ReadsFloats, as_pipeline_response-write, batch_result-write_batch_result,
}
use libsql_client_go.Conn.World.{Env, Conn, HttpRequest, Reply, answered, World}
use libsql_client_go.Conn.Replies.{
  got, index_panics, response_panics, read_reply, read_response, get_replication_index,
}
use libsql_client_go.Conn.Send.{
  http_request, prepare, receive, post, settle, keep, send, check_results, execute_msg,
  after_response, mark_closed, move_to, raise_index,
}
use libsql_client_go.Conn.Chunks.{empty_message}
use libsql_client_go.Conn.Execute.{
  parse, message_of, execute_whole, execute_parsed, query_size_limit,
}
use libsql_client_go.Conn.Driver.{exec_context, exec_response, exec_answer, without_last}
use libsql_client_go.Conn.Trips.{execute_stmt-whole}
use libsql_client_go.Conn.Sums.{
  AllCounts, total, row_ids, last_or, sum_results-map, without_last-append,
}

-- The answer to a request with a batch.
abbrev pub answer_of : Server → Text → Text → BatchResult → PipelineResponse
answer_of server baton base_url b = record {
  baton = baton;
  base_url = base_url;
  results =
      record {
        kind = codes "ok";
        response =
            some (record { kind = codes "batch"; result = some (write_batch_result server b) });
        error = none;
      }
      ∷ [];
}

-- The results of the statements, with that of the ROLLBACK behind them unless the connection is to a
-- schema database, which gets no transaction.
abbrev pub steps_of : Bool → List StmtResult → Option StmtResult → List (Option StmtResult)
steps_of true rs rollback = map some rs
steps_of false rs rollback = map some rs ++ (rollback ∷ [])

module _ (env : Env) where
  open env use {clock, numbers, parse_json}
  open clock use {Time}

  -- The world behind a request `hr` that got an answer `p`.
  abbrev pub behind : World → HttpRequest → List Reply → PipelineResponse → World
  behind w hr rest p = record w {
    conn = after_response env p false w.conn;
    sent = w.sent ++ (hr ∷ []);
    replies = rest;
  }

  read_reply-ok :
      (body : Text) (j : Json) (p : PipelineResponse)
      → parse_json body ≡ some j
      → as_pipeline_response numbers j ≡ ok p
      → read_reply env (answered 200 body) ≡ got p
  unfolding read_reply read_response
  read_reply-ok body j p h k = rw (read_reply, read_response, h, k) refl

  send-ok :
      (msg : PipelineRequest) (w : World) (hr : HttpRequest) (body : Text) (rest : List Reply)
      (p : PipelineResponse)
      → w.conn.stream_closed ≡ false
      → http_request env w.conn (prepare w.conn msg) ≡ some hr
      → w.replies ≡ answered 200 body ∷ rest
      → read_reply env (answered 200 body) ≡ got p
      → index_panics env p.results ≡ false
      → send env msg false w ≡ (ok p, behind w hr rest p)
  unfolding send post receive settle keep
  send-ok msg w hr body rest p open_ h r k i = rw (open_, h, r, k, i) refl

  exec_context-ok :
      (query : Text) (args : List (NamedValue Time)) (w : World) (stmts : List Text)
      (ps : List (Params Time)) (req : StreamRequest) (p : PipelineResponse) (v : World)
      → length query ≤ query_size_limit
      → parse env query args ≡ ok (stmts, ps)
      → message_of env w.conn.schema_db stmts ps false ≡ ok req
      → send env (add_request empty_message req) false w ≡ (ok p, v)
      → check_results env p.results ≡ none
      → exec_context env query args w ≡ exec_answer env p v
  unfolding exec_context execute_whole execute_parsed execute_msg
  exec_context-ok query args w stmts ps req p v short a m s c =
      rw (execute_stmt-whole env query args false w short, a, m, s, c) refl

  marked : (b : Bool) (c : Conn) → (mark_closed b c).schema_db ≡ c.schema_db
  marked true c = refl
  marked false c = refl

  moved : (url : Text) (c : Conn) → (move_to url c).schema_db ≡ c.schema_db
  moved [] c = refl
  moved (x ∷ url) c = refl

  raised : (n : ℕ) (c : Conn) → (raise_index n c).schema_db ≡ c.schema_db
  raised n c =
      if_both (λ (d : Conn). d.schema_db ≡ c.schema_db) (ltb c.replication_index n) refl refl

  after_response-schema_db :
      (p : PipelineResponse) (c : Conn) → (after_response env p false c).schema_db ≡ c.schema_db
  unfolding after_response
  after_response-schema_db p c =
      raised (get_replication_index env p) _
      ∙ moved p.base_url _
      ∙ marked (is_empty p.baton && not false) (record c { baton = p.baton })

  kept-steps_of :
      (schema_db : Bool) (rs : List StmtResult) (rollback : Option StmtResult)
      → Path
          (List (Option StmtResult))
          (if schema_db
            then steps_of schema_db rs rollback
            else without_last (steps_of schema_db rs rollback))
          (map some rs)
  kept-steps_of true rs rollback = refl
  kept-steps_of false rs rollback = without_last-append (map some rs) rollback

  exec_response-batch :
      (schema_db : Bool) (j : Option Json) (b : BatchResult) (rs : List StmtResult)
      (rollback : Option StmtResult)
      → batch_result numbers (record { kind = codes "batch"; result = j }) ≡ ok b
      → b.step_results ≡ steps_of schema_db rs rollback
      → AllCounts rs
      → total rs < 2 ^ 63
      → exec_response env schema_db (record { kind = codes "batch"; result = j })
        ≡ ok (record { id = last_or (pos 0) (row_ids rs); changes = pos (total rs) })
  unfolding exec_response text_eq
  exec_response-batch schema_db j b rs rollback e s c bound =
      rw (e, s, kept-steps_of schema_db rs rollback)
        (sum_results-map rs (pos 0) 0 c (omega arith)
          ∙ ap (λ (n : ℕ). ok (record { id = last_or (pos 0) (row_ids rs); changes = pos n }))
              (omega arith))

  response_panics-batch :
      (j : Option Json) (b : BatchResult)
      → batch_result numbers (record { kind = codes "batch"; result = j }) ≡ ok b
      → response_panics env (record { kind = codes "batch"; result = j }) ≡ false
  unfolding response_panics text_eq
  response_panics-batch j b e = rw (e) refl

  module _ (server : Server) where
    -- `ExecContext` of a text of at most 20 MiB whose message can be built and sent, on an open stream, to a
    -- server that answers with the results of the batch and no step error: the text of the answer is read, the
    -- result has the sum of the rows that the statements changed and the last positive row id, and the
    -- connection has sent one request and is as the answer leaves it. The result of the ROLLBACK step does not
    -- count. The counts are not negative and their sum is below 2^63.
    pub exec_context-batch :
        (query : Text) (args : List (NamedValue Time)) (w : World) (stmts : List Text)
        (ps : List (Params Time)) (req : StreamRequest) (hr : HttpRequest) (body : Text)
        (rest : List Reply) (baton base_url : Text) (b : BatchResult) (rs : List StmtResult)
        (rollback : Option StmtResult)
        → Ignored numbers server
        → ReadsFloats numbers server
        → length query ≤ query_size_limit
        → parse env query args ≡ ok (stmts, ps)
        → message_of env w.conn.schema_db stmts ps false ≡ ok req
        → w.conn.stream_closed ≡ false
        → http_request env w.conn (prepare w.conn (add_request empty_message req)) ≡ some hr
        → w.replies ≡ answered 200 body ∷ rest
        → parse_json body
          ≡ some (write_pipeline_response server (answer_of server baton base_url b))
        → IsBatchResult b
        → first_error b.step_errors ≡ none
        → b.step_results ≡ steps_of w.conn.schema_db rs rollback
        → AllCounts rs
        → total rs < 2 ^ 63
        → exec_context env query args w ≡ (
          ok (record { id = last_or (pos 0) (row_ids rs); changes = pos (total rs) }),
          behind w hr rest (answer_of server baton base_url b),
        )
    exec_context-batch query args w stmts ps req hr body rest baton base_url b rs rollback ig fl
          short a m open_ h r j k e s c bound =
        let p = answer_of server baton base_url b in
        let read = read_reply-ok body _ p j (as_pipeline_response-write numbers server ig fl p) in
        let answer : batch_result numbers
              (record { kind = codes "batch"; result = some (write_batch_result server b) })
            ≡ ok b =
          batch_result-write_batch_result numbers server ig fl b k ∙ rw e refl in
        let calm : index_panics env p.results ≡ false =
          unfold index_panics in rw (response_panics-batch _ b answer) refl in
        let sent = send-ok (add_request empty_message req) w hr body rest p open_ h r read calm in
        exec_context-ok query args w stmts ps req p (behind w hr rest p) short a m sent
          (unfold check_results in refl)
        ∙ rw
            (
              after_response-schema_db p w.conn,
              exec_response-batch w.conn.schema_db (some (write_batch_result server b)) b rs
                  rollback answer s c bound,
            )
            refl
