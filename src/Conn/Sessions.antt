-- ===== src/Conn/Sessions.antt =====
-- `ResetSession` between two users of a connection.
use mathlib.Core.List.{append-nil}
use mathlib.Core.Path.{subst}
use libsql_client_go.Base.{
  ℕ, zero, suc, ◌≡◌, refl, sym, ap, ◌∙◌, Option, none, some, List, [], ◌∷◌, ◌++◌, ltb, if_both,
}
use libsql_client_go.Base.Texts.{Text, codes}
use libsql_client_go.Hrana.Request.{PipelineRequest}
use libsql_client_go.Conn.World.{Env, Conn, HttpRequest, World}
use libsql_client_go.Conn.Send.{http_request, prepare, add_replication_index}
use libsql_client_go.Conn.Chunks.{spawn, close_stream_of}
use libsql_client_go.Conn.Driver.{reset_session}

abbrev pub without_baton : Conn → Conn
without_baton c = record c { baton = [] }

-- The message that gives up the stream of a baton.
abbrev pub close_of : Text → PipelineRequest
close_of baton = record {
  baton = baton;
  requests =
      record { kind = codes "close"; stmt = none; batch = none; sql = none; sql_id = none } ∷ [];
}

abbrev pub listed {ℓ} : {A : Type ℓ} → Option A → List A
listed none = []
listed (some a) = a ∷ []

module _ (env : Env) where
  -- The requests that close the stream of a connection: none without a baton, and none if it cannot be built.
  pub closing_of : Conn → Text → List HttpRequest
  closing_of c [] = []
  closing_of c (x ∷ b) = listed (http_request env c (close_of (x ∷ b)))

  -- Several calls of `ResetSession`, one after the other.
  unfoldable pub resets : ℕ → World → World
  resets zero w = w
  resets (suc n) w = resets n (reset_session env w).1

  -- What the first user's stream leaves for the next user.
  pub record Handed (w v : World) : Type 0 where
    pub conn : v.conn ≡ without_baton w.conn
    pub sent : v.sent ≡ w.sent
    pub replies : v.replies ≡ w.replies
    pub spawned : v.spawned ≡ w.spawned ++ closing_of w.conn w.conn.baton

  spawn-Handed :
      (o : Option HttpRequest) (w : World)
      → closing_of w.conn w.conn.baton ≡ listed o
      → Handed w (record (spawn o w) { conn = without_baton w.conn })
  spawn-Handed none w e = record {
    conn = refl;
    sent = refl;
    replies = refl;
    spawned = sym (ap (λ rs. w.spawned ++ rs) e ∙ append-nil w.spawned);
  }
  spawn-Handed (some r) w e = record {
    conn = refl;
    sent = refl;
    replies = refl;
    spawned = ap (λ rs. w.spawned ++ rs) (sym e);
  }

  reset_session-idle : (w : World) → w.conn.baton ≡ [] → (reset_session env w).1 ≡ w
  unfolding reset_session close_stream_of
  reset_session-idle w e = rw (reset_session, close_stream_of, e) refl

  reset_session-Handed : (w : World) → Handed w (reset_session env w).1
  unfolding reset_session close_stream_of closing_of
  reset_session-Handed w = by_baton w.conn.baton refl
    where
      by_baton : (b : Text) → w.conn.baton ≡ b → Handed w (reset_session env w).1
      by_baton [] e = subst (Handed w) (sym (reset_session-idle w e)) (record {
        conn = ap (λ (t : Text). record w.conn { baton = t }) e;
        sent = refl;
        replies = refl;
        spawned = sym (ap (λ t. w.spawned ++ closing_of w.conn t) e ∙ append-nil w.spawned);
      })
      by_baton (x ∷ b) e =
          let o = http_request env w.conn (close_of w.conn.baton) in
          let closed : (reset_session env w).1
              ≡ record (spawn o w) { conn = without_baton w.conn } =
            rw (reset_session, close_stream_of, e) refl in
          let handed : closing_of w.conn w.conn.baton ≡ listed o = rw e refl in
          subst (Handed w) (sym closed) (spawn-Handed o w handed)

  resets-idle : (n : ℕ) (w : World) → w.conn.baton ≡ [] → resets n w ≡ w
  unfolding resets
  resets-idle zero w e = refl
  resets-idle (suc n) w e = ap (resets n) (reset_session-idle w e) ∙ resets-idle n w e

  prepare-baton :
      (c : Conn) (msg : PipelineRequest) → c.baton ≡ [] → (prepare c msg).baton ≡ msg.baton
  unfolding prepare add_replication_index
  prepare-baton c msg e =
      rw (prepare, e)
        (if_both (λ (m : PipelineRequest). m.baton ≡ msg.baton) (ltb 0 c.replication_index) refl
          refl)

  -- `ResetSession` between two users, however often it is called: a stream that the first one has left open
  -- is given up by one request that carries its baton, which a goroutine sends, if that request can be built;
  -- there is none if there is no stream. The calls themselves send nothing and take no reply, and change
  -- nothing of the connection but the baton, and no message of the next user goes out with the baton of the
  -- first.
  pub resets-Handed :
      (n : ℕ) (w : World) (msg : PipelineRequest)
      → Handed w (resets (suc n) w) × ((prepare (resets (suc n) w).conn msg).baton ≡ msg.baton)
  unfolding resets
  resets-Handed n w msg =
      let once = reset_session-Handed w in
      let fresh : (reset_session env w).1.conn.baton ≡ [] = ap (λ c. c.baton) once.conn in
      let same = resets-idle n (reset_session env w).1 fresh in
      (
        subst (Handed w) (sym same) once,
        prepare-baton (resets n (reset_session env w).1).conn msg
            (ap (λ v. v.conn.baton) same ∙ fresh),
      )
