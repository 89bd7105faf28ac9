-- ===== src/Conn/Growth.antt =====
-- The replication index: a connection reads what it has written.
use mathlib.Core.Path.{subst}
use libsql_client_go.Base.{
  Bool, true, false, ℕ, zero, suc, get_elem?, ◌<◌, ◌≤◌, ◌≡◌, refl, ap, ◌∙◌, Bool, true, Option,
  none, some, List, [], ◌∷◌, map, ltb, if_both, arith,
}
use libsql_client_go.Base.Texts.{is_empty}
use libsql_client_go.Base.Results.{Result, ok, err}
use libsql_client_go.Hrana.Request.{PipelineRequest}
use libsql_client_go.Hrana.Response.{PipelineResponse, StreamResult}
use libsql_client_go.Conn.World.{Env, Conn, Fault, World}
use libsql_client_go.Conn.Replies.{
  larger, Sending, got, refused, index_of, index_loop, get_replication_index, index_panics,
}
use libsql_client_go.Conn.Send.{
  settle, keep, send, post, http_request, prepare, request_with_index, add_replication_index,
}
use libsql_client_go.Conn.Runs.{after_calls, after_calls-grows, after_response-index}

prepare-map :
    (c : Conn) (msg : PipelineRequest)
    → 0 < c.replication_index
    → (prepare c msg).requests ≡ map (request_with_index c.replication_index) msg.requests
unfolding prepare add_replication_index
prepare-map c msg h =
    let known : ltb 0 c.replication_index ≡ true = ground arith in
    rw known (
      ap (map (request_with_index c.replication_index)) (
        if_both {A = PipelineRequest} (λ m. m.requests ≡ msg.requests) (is_empty c.baton) refl
          refl))

module _ (env : Env) where
  index_loop-above : (m : ℕ) (rs : List StreamResult) → m ≤ index_loop env m rs
  unfolding index_loop
  index_loop-above m [] = omega arith
  index_loop-above m (r ∷ rs) =
      omega
        (arith, larger-above m (index_of env r), index_loop-above (larger m (index_of env r)) rs)
    where
      larger-above : (m : ℕ) (o : Option ℕ) → m ≤ larger m o
      larger-above m none = omega arith
      larger-above m (some n) = ground arith

  larger-some : (m i : ℕ) (o : Option ℕ) → o ≡ some i → i ≤ larger m o
  larger-some m i o e = rw e (ground arith)

  index_loop-get_elem? :
      (m i : ℕ) (r : StreamResult) (rs : List StreamResult) (k : ℕ)
      → get_elem? rs k ≡ some r
      → index_of env r ≡ some i
      → i ≤ index_loop env m rs
  unfolding index_loop
  index_loop-get_elem? m i r [] k h e = cc
  index_loop-get_elem? m i r (s ∷ rs) zero h e = omega (
    arith,
    larger-some m i (index_of env s)
        (ap (λ (o : Option StreamResult). elim o [ none ↦ none | some x ↦ index_of env x ]) h ∙ e),
    index_loop-above (larger m (index_of env s)) rs,
  )
  index_loop-get_elem? m i r (s ∷ rs) (suc k) h e =
      index_loop-get_elem? (larger m (index_of env s)) i r rs k h e

  -- The index that a call reports.
  abbrev reported : Result Fault PipelineResponse → ℕ
  reported (ok p) = get_replication_index env p
  reported (err f) = 0

  settle-reports :
      (b : Bool) (s : Sending) (w : World)
      → reported (settle env b (s, w)).0 ≤ (settle env b (s, w)).1.conn.replication_index
  unfolding settle keep
  settle-reports b (got p) w = kept (index_panics env p.results)
    where
      kept :
          (panics : Bool)
          → reported (keep env panics p b w).0 ≤ (keep env panics p b w).1.conn.replication_index
      kept false = (after_response-index env p b w.conn).1
      kept true = omega arith
  settle-reports b (refused c f) w = omega arith

  send-reports :
      (msg : PipelineRequest) (b : Bool) (w : World)
      → reported (send env msg b w).0 ≤ (send env msg b w).1.conn.replication_index
  unfolding send
  send-reports msg b w =
      let posted = post env (http_request env w.conn (prepare w.conn msg)) w in
      if_both {A = Result Fault PipelineResponse × World}
        (λ r. reported r.0 ≤ r.1.conn.replication_index) w.conn.stream_closed (omega arith)
        (settle-reports b posted.0 posted.1)

  -- When a call returns a response in which some result reports a replication index above 0, then
  -- after any further calls on the connection, every statement and batch that is sent without an
  -- index of its own is given one, the same for all, that is at least the reported one.
  pub prepare-reads_own_writes :
      (msg : PipelineRequest) (b : Bool) (w v : World) (p : PipelineResponse)
      → send env msg b w ≡ (ok p, v)
      → (k : ℕ) (r : StreamResult) (i : ℕ) → get_elem? p.results k ≡ some r
      → index_of env r ≡ some i
      → 0 < i
      → (calls : List (PipelineRequest × Bool)) (later : PipelineRequest)
      → (j : ℕ) × (i ≤ j)
        × ((prepare (after_calls env calls v).conn later).requests
            ≡ map (request_with_index j) later.requests)
  unfolding get_replication_index
  prepare-reads_own_writes msg b w v p sent k r i at e positive calls later =
      let found : i ≤ get_replication_index env p = index_loop-get_elem? 0 i r p.results k at e in
      let known : get_replication_index env p ≤ v.conn.replication_index =
        subst
          (λ (s : Result Fault PipelineResponse × World). reported s.0 ≤ s.1.conn.replication_index)
          sent (send-reports msg b w) in
      let last = (after_calls env calls v).conn in
      let above : i ≤ last.replication_index =
        omega (arith, found, known, after_calls-grows env calls v) in
      (last.replication_index, above, prepare-map last later (omega arith))
