-- ===== src/Conn/Said.antt =====
-- The texts of the statements that a call of `executeMsg` sends.
use mathlib.Core.List.{append_assoc, append-nil, map-append}
use libsql_client_go.Base.{
  Bool, true, false, ℕ, ◌≡◌, refl, ap, sym, ◌∙◌, Bool, false, Option, none, some, List, [], ◌∷◌,
  ◌++◌, map, ltb, if◌then◌else◌, if_both, arith,
}
use libsql_client_go.Base.Texts.{Text, is_empty}
use libsql_client_go.Base.Results.{Result, ok, err}
use libsql_client_go.Hrana.Batch.{Stmt, BatchStep}
use libsql_client_go.Hrana.Request.{StreamRequest, PipelineRequest}
use libsql_client_go.Hrana.Response.{PipelineResponse}
use libsql_client_go.Conn.World.{Env, Conn, Fault, HttpRequest, Reply, World, Exec, then_run}
use libsql_client_go.Conn.Replies.{Sending, got, refused, index_panics}
use libsql_client_go.Conn.Send.{
  prepare, add_replication_index, stmt_with_index, batch_with_index, request_with_index,
  http_request, receive, post, settle, keep, send, execute_msg, report, check_results, checked,
}

-- The texts of a request, and those of the requests that were sent.
unfoldable pub stmt_sql : Stmt → Text
stmt_sql s = elim s.sql [ none ↦ [] | some t ↦ t ]

unfoldable pub request_sqls : StreamRequest → List Text
unfolding stmt_sql
request_sqls r = elim r.batch [
  | some b ↦ map (λ (step : BatchStep). stmt_sql step.stmt) b.steps
  | none ↦ elim r.stmt [ none ↦ [] | some s ↦ stmt_sql s ∷ [] ]
]

unfoldable pub message_sqls : List StreamRequest → List Text
unfolding request_sqls
message_sqls [] = []
message_sqls (r ∷ rs) = request_sqls r ++ message_sqls rs

abbrev pub sqls_of : HttpRequest → List Text
sqls_of r = message_sqls r.message.requests

abbrev pub sent_sqls : World → List (List Text)
sent_sqls w = map sqls_of w.sent

request_sqls-index :
    (n : ℕ) (r : StreamRequest) → request_sqls (request_with_index n r) ≡ request_sqls r
unfolding request_sqls request_with_index stmt_with_index batch_with_index stmt_sql
request_sqls-index n r = ground arith

message_sqls-index :
    (n : ℕ) (rs : List StreamRequest)
    → message_sqls (map (request_with_index n) rs) ≡ message_sqls rs
unfolding message_sqls
message_sqls-index n [] = refl
message_sqls-index n (r ∷ rs) = rw (request_sqls-index n r, message_sqls-index n rs) refl

prepare-sqls :
    (c : Conn) (msg : PipelineRequest)
    → message_sqls (prepare c msg).requests ≡ message_sqls msg.requests
unfolding prepare add_replication_index
prepare-sqls c msg =
    let based : PipelineRequest =
      if is_empty c.baton then msg else record msg { baton = c.baton } in
    let same : based.requests ≡ msg.requests =
      if_both {A = PipelineRequest} (λ m. m.requests ≡ msg.requests) (is_empty c.baton) refl refl in
    if_both {A = PipelineRequest} (λ m. message_sqls m.requests ≡ message_sqls msg.requests)
      (ltb 0 c.replication_index)
      (message_sqls-index c.replication_index based.requests ∙ ap message_sqls same)
      (ap message_sqls same)

-- A step that succeeds has sent requests of these texts.
unfoldable pub Said {ℓ} : {A : Type ℓ} → List (List Text) → World → Result Fault A × World → Type 0
Said ms w (ok a, v) = sent_sqls v ≡ sent_sqls w ++ ms
Said ms w (err f, v) = Unit

Said-from {ℓ} :
    {A : Type ℓ} (ms ns : List (List Text)) (w v : World) (r : Result Fault A) (u : World)
    → sent_sqls v ≡ sent_sqls w ++ ms
    → Said ns v (r, u)
    → Said (ms ++ ns) w (r, u)
unfolding Said
Said-from ms ns w v (err e) u h k = tt
Said-from ms ns w v (ok b) u h k = k ∙ ap (λ xs. xs ++ ns) h ∙ append_assoc (sent_sqls w) ms ns

pub then_run-Said {ℓ κ} :
    {A : Type ℓ} {B : Type κ} (ms ns : List (List Text)) (w : World) (r : Result Fault A)
    (v : World) (f : A → Exec B)
    → Said ms w (r, v)
    → ((a : A) → Said ns v (f a v))
    → Said (ms ++ ns) w (then_run r v f)
unfolding Said
then_run-Said ms ns w (err e) v f h k = tt
then_run-Said ms ns w (ok a) v f h k = Said-from ms ns w v (f a v).0 (f a v).1 h (k a)

module _ (env : Env) where
  http_request-message :
      (c : Conn) (msg : PipelineRequest) (r : HttpRequest)
      → http_request env c msg ≡ some r
      → r.message ≡ msg
  unfolding http_request
  http_request-message c msg r e = ground arith

  receive-sent :
      (rs : List Reply) (r : HttpRequest) (w : World)
      → (receive env rs r w).1.sent ≡ w.sent ++ (r ∷ [])
  unfolding receive
  receive-sent [] r w = refl
  receive-sent (x ∷ rs) r w = refl

  sent-one :
      (w : World) (msg : PipelineRequest) (v : World) (r : HttpRequest)
      → http_request env w.conn (prepare w.conn msg) ≡ some r
      → v.sent ≡ w.sent ++ (r ∷ [])
      → sent_sqls v ≡ sent_sqls w ++ (message_sqls msg.requests ∷ [])
  sent-one w msg v r built e =
      ap (map sqls_of) e
      ∙ map-append sqls_of w.sent (r ∷ [])
      ∙ ap (λ x. sent_sqls w ++ (x ∷ []))
          (ap (λ m. message_sqls m.requests)
              (http_request-message w.conn (prepare w.conn msg) r built)
            ∙ prepare-sqls w.conn msg)

  settle-Said :
      (ms : List (List Text)) (w : World) (b : Bool) (s : Sending) (v : World)
      → sent_sqls v ≡ sent_sqls w ++ ms
      → Said ms w (settle env b (s, v))
  unfolding Said settle keep
  settle-Said ms w b (got p) v h = kept (index_panics env p.results)
    where
      kept : (panics : Bool) → Said ms w (keep env panics p b v)
      kept true = tt
      kept false = h
  settle-Said ms w b (refused c f) v h = tt

  post-Said :
      (w : World) (msg : PipelineRequest) (b : Bool) (o : Option HttpRequest)
      → http_request env w.conn (prepare w.conn msg) ≡ o
      → Said (message_sqls msg.requests ∷ []) w (settle env b (post env o w))
  unfolding post Said settle
  post-Said w msg b none e = tt
  post-Said w msg b (some r) e =
      settle-Said (message_sqls msg.requests ∷ []) w b (receive env w.replies r w).0
        (receive env w.replies r w).1
        (sent-one w msg (receive env w.replies r w).1 r e (receive-sent w.replies r w))

  send-Said :
      (msg : PipelineRequest) (b : Bool) (w : World)
      → Said (message_sqls msg.requests ∷ []) w (send env msg b w)
  unfolding send Said
  send-Said msg b w =
      if_both {A = Result Fault PipelineResponse × World}
        (λ r. Said (message_sqls msg.requests ∷ []) w r) w.conn.stream_closed tt
        (post-Said w msg b _ refl)

  report-Said : (p : PipelineResponse) (o : Option Fault) (w : World) → Said [] w (report env p o w)
  unfolding Said
  report-Said p none w = sym (append-nil (sent_sqls w))
  report-Said p (some f) w = tt

  pub execute_msg-Said :
      (msg : PipelineRequest) (w : World)
      → Said (message_sqls msg.requests ∷ []) w (execute_msg env msg w)
  unfolding execute_msg
  execute_msg-Said msg w =
      let r = send env msg false w in
      then_run-Said (message_sqls msg.requests ∷ []) [] w r.0 r.1 (checked env)
        (send-Said msg false w) (λ p. report-Said p (check_results env p.results) r.1)
