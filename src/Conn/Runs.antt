-- ===== src/Conn/Runs.antt =====
-- Sequences of calls of `sendPipelineRequest` on one connection.
use libsql_client_go.Base.{
  ℕ, ◌≤◌, ◌≡◌, refl, ap, ◌∙◌, Bool, true, false, not, ◌&&◌, Option, none, some, List, [], ◌∷◌, ltb,
  if_both, if_split, arith,
}
use libsql_client_go.Base.Texts.{Text, is_empty}
use libsql_client_go.Base.Results.{Result}
use libsql_client_go.Hrana.Request.{PipelineRequest}
use libsql_client_go.Hrana.Response.{PipelineResponse}
use libsql_client_go.Conn.World.{Env, Conn, Fault, HttpRequest, Reply, World}
use libsql_client_go.Conn.Replies.{Sending, got, refused, get_replication_index, index_panics}
use libsql_client_go.Conn.Send.{
  mark_closed, move_to, raise_index, after_response, without_index, settle, keep, post, send,
  receive, http_request, prepare,
}

module _ (env : Env) where
  -- Any calls, one after the other, whatever they return.
  pub after_calls : List (PipelineRequest × Bool) → World → World
  after_calls [] w = w
  after_calls ((msg, b) ∷ calls) w = after_calls calls (send env msg b w).1

  receive-conn :
      (rs : List Reply) (r : HttpRequest) (w : World) → (receive env rs r w).1.conn ≡ w.conn
  unfolding receive
  receive-conn [] r w = refl
  receive-conn (x ∷ rs) r w = refl

  pub post-conn : (r : Option HttpRequest) (w : World) → (post env r w).1.conn ≡ w.conn
  unfolding post
  post-conn none w = refl
  post-conn (some r) w = receive-conn w.replies r w

  mark_closed-index :
      (b : Bool) (c : Conn) → (mark_closed b c).replication_index ≡ c.replication_index
  mark_closed-index true c = refl
  mark_closed-index false c = refl

  move_to-index : (url : Text) (c : Conn) → (move_to url c).replication_index ≡ c.replication_index
  move_to-index [] c = refl
  move_to-index (x ∷ url) c = refl

  raise_index-index :
      (n : ℕ) (c : Conn)
      → (c.replication_index ≤ (raise_index n c).replication_index)
        × (n ≤ (raise_index n c).replication_index)
  raise_index-index n c =
      if_split {A = Conn}
        (λ d. (c.replication_index ≤ d.replication_index) × (n ≤ d.replication_index))
        (ltb c.replication_index n) (λ e. ground arith) (λ e. ground arith)

  without_index-index :
      (p : PipelineResponse) (b : Bool) (c : Conn)
      → (without_index env p b c).replication_index ≡ c.replication_index
  without_index-index p b c =
      move_to-index p.base_url _
      ∙ mark_closed-index (is_empty p.baton && not b) (record c { baton = p.baton })

  pub after_response-index :
      (p : PipelineResponse) (b : Bool) (c : Conn)
      → (c.replication_index ≤ (after_response env p b c).replication_index)
        × (get_replication_index env p ≤ (after_response env p b c).replication_index)
  unfolding after_response
  after_response-index p b c =
      let grown = raise_index-index (get_replication_index env p) (without_index env p b c) in
      (omega (arith, grown.0, without_index-index p b c), grown.1)

  settle-grows :
      (b : Bool) (s : Sending) (w : World)
      → w.conn.replication_index ≤ (settle env b (s, w)).1.conn.replication_index
  unfolding settle keep
  settle-grows b (got p) w = kept (index_panics env p.results)
    where
      kept :
          (panics : Bool)
          → w.conn.replication_index ≤ (keep env panics p b w).1.conn.replication_index
      kept false = (after_response-index p b w.conn).0
      kept true = omega (arith, without_index-index p b w.conn)
  settle-grows b (refused true f) w = omega arith
  settle-grows b (refused false f) w = omega arith

  send-grows :
      (msg : PipelineRequest) (b : Bool) (w : World)
      → w.conn.replication_index ≤ (send env msg b w).1.conn.replication_index
  unfolding send
  send-grows msg b w =
      if_both {A = Result Fault PipelineResponse × World}
        (λ r. w.conn.replication_index ≤ r.1.conn.replication_index) w.conn.stream_closed
        (omega arith)
        (settled (post env (http_request env w.conn (prepare w.conn msg)) w)
          (post-conn (http_request env w.conn (prepare w.conn msg)) w))
    where
      settled :
          (s : Sending × World)
          → s.1.conn ≡ w.conn
          → w.conn.replication_index ≤ (settle env b s).1.conn.replication_index
      settled s e = omega (arith, settle-grows b s.0 s.1, ap (λ c. c.replication_index) e)

  pub after_calls-grows :
      (calls : List (PipelineRequest × Bool)) (w : World)
      → w.conn.replication_index ≤ (after_calls calls w).conn.replication_index
  unfolding after_calls
  after_calls-grows [] w = omega arith
  after_calls-grows ((msg, b) ∷ calls) w =
      omega (arith, send-grows msg b w, after_calls-grows calls (send env msg b w).1)
