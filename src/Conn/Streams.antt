-- ===== src/Conn/Streams.antt =====
-- A call keeps the connection's stream in step with the server's.
use libsql_client_go.Base.{
  ℕ, ◌≡◌, ◌∙◌, sym, false_ne_true, ltb, ap, refl, Bool, true, false, not, ◌&&◌, [], ◌∷◌, if_split,
  ◌⊎◌, inl, inr, if_both,
}
use libsql_client_go.Base.Texts.{Text, is_empty}
use libsql_client_go.Base.Results.{Result, ok, err}
use libsql_client_go.Hrana.Request.{PipelineRequest}
use libsql_client_go.Hrana.Response.{PipelineResponse}
use libsql_client_go.Conn.World.{Env, Conn, Fault, World, is_panic}
use libsql_client_go.Conn.Replies.{Sending, got, refused, get_replication_index, index_panics}
use libsql_client_go.Conn.Send.{
  mark_closed, move_to, raise_index, after_response, settle, keep, post, send, prepare,
  http_request,
}
use libsql_client_go.Conn.Driver.{is_valid}
use libsql_client_go.Conn.Runs.{post-conn}

-- What a call leaves: with a response, its baton, and a valid connection if that is not empty;
-- with an error that is no panic, the old baton.
pub Settled : Conn → Result Fault PipelineResponse × World → Type 0
Settled c (ok p, v) = (v.conn.baton ≡ p.baton) × (is_valid v.conn ≡ not (is_empty p.baton))
Settled c (err f, v) = (v.conn.baton ≡ c.baton) ⊎ (is_panic f ≡ true)

module _ (env : Env) where
  move_to-kept :
      (url : Text) (c : Conn)
      → ((move_to url c).baton ≡ c.baton) × ((move_to url c).stream_closed ≡ c.stream_closed)
  move_to-kept [] c = (refl, refl)
  move_to-kept (x ∷ url) c = (refl, refl)

  raise_index-kept :
      (n : ℕ) (c : Conn)
      → ((raise_index n c).baton ≡ c.baton) × ((raise_index n c).stream_closed ≡ c.stream_closed)
  raise_index-kept n c =
      if_both {A = Conn} (λ d. (d.baton ≡ c.baton) × (d.stream_closed ≡ c.stream_closed))
        (ltb c.replication_index n) (refl, refl) (refl, refl)

  mark_closed-kept :
      (b : Bool) (c : Conn)
      → c.stream_closed ≡ false
      → ((mark_closed b c).baton ≡ c.baton) × ((mark_closed b c).stream_closed ≡ b)
  mark_closed-kept true c e = (refl, refl)
  mark_closed-kept false c e = (refl, e)

  after_response-kept :
      (p : PipelineResponse) (c : Conn)
      → c.stream_closed ≡ false
      → ((after_response env p false c).baton ≡ p.baton)
        × ((after_response env p false c).stream_closed ≡ is_empty p.baton)
  unfolding after_response
  after_response-kept p c e =
      let marked = mark_closed (is_empty p.baton && true) (record c { baton = p.baton }) in
      let moved = move_to p.base_url marked in
      let a = raise_index-kept (get_replication_index env p) moved in
      let b = move_to-kept p.base_url marked in
      let d = mark_closed-kept (is_empty p.baton && true) (record c { baton = p.baton }) e in
      (a.0 ∙ b.0 ∙ d.0, a.1 ∙ b.1 ∙ d.1 ∙ and_true (is_empty p.baton))
    where
      and_true : (x : Bool) → (x && true) ≡ x
      and_true true = refl
      and_true false = refl

  settle-Settled :
      (s : Sending) (w : World) (c : Conn)
      → w.conn ≡ c
      → c.stream_closed ≡ false
      → Settled c (settle env false (s, w))
  unfolding settle keep Settled is_valid
  settle-Settled (got p) w c same e = by_panic (index_panics env p.results)
    where
      by_panic : (panics : Bool) → Settled c (keep env panics p false w)
      by_panic true = inr refl
      by_panic false =
          let kept = after_response-kept p w.conn (ap (λ d. d.stream_closed) same ∙ e) in
          (kept.0, ap not kept.1)
  settle-Settled (refused true f) w c same e = inl (ap (λ d. d.baton) same)
  settle-Settled (refused false f) w c same e = inl (ap (λ d. d.baton) same)

  -- On an open stream, a call other than the closing one leaves the connection with the baton of the
  -- response, and valid if and only if that baton is not empty; if it fails without a panic, the baton
  -- stays.
  pub send-Settled :
      (msg : PipelineRequest) (w : World)
      → w.conn.stream_closed ≡ false
      → Settled w.conn (send env msg false w)
  unfolding send
  send-Settled msg w e =
      let request = http_request env w.conn (prepare w.conn msg) in
      if_split {A = Result Fault PipelineResponse × World} (Settled w.conn) w.conn.stream_closed
        (λ closed. absurd (false_ne_true (sym e ∙ closed)))
        (λ h.
          settle-Settled (post env request w).0 (post env request w).1 w.conn
            (post-conn env request w) e)
