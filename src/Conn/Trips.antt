-- ===== src/Conn/Trips.antt =====
-- How many requests a call of the driver sends.
use libsql_client_go.Base.{
  ◌≤◌, ◌≡◌, refl, sym, ap, ◌∙◌, ◌⊎◌, inl, inr, Option, none, some, Bool, true, false, List, [], ◌∷◌,
  ◌++◌, ltb, ◌==◌, not, ◌&&◌, if_both, length, arith,
}
use mathlib.Core.Path.{subst}
use libsql_client_go.Base.Texts.{Text}
use libsql_client_go.Base.Results.{Result, ok, err}
use libsql_client_go.Values.{NamedValue}
use libsql_client_go.Params.{Params}
use libsql_client_go.Hrana.Request.{PipelineRequest, add_request}
use libsql_client_go.Hrana.Response.{PipelineResponse}
use libsql_client_go.Conn.World.{Env, Fault, HttpRequest, Reply, World, Exec, then_run, wrapped}
use libsql_client_go.Conn.Replies.{Sending, got, refused, index_panics}
use libsql_client_go.Conn.Send.{
  http_request, prepare, receive, post, settle, keep, send, check_results, execute_msg, report,
  checked,
}
use libsql_client_go.Conn.Chunks.{empty_message}
use libsql_client_go.Conn.Execute.{
  parse, message_of, execute_whole, execute_parsed, execute_request, execute_stmt, query_size_limit,
}
use libsql_client_go.Conn.Driver.{exec_context, exec_answer}

-- At most one request more has been sent.
unfoldable pub Trip : World → World → Type 0
Trip w v = (v.sent ≡ w.sent) ⊎ ((r : HttpRequest) × (v.sent ≡ w.sent ++ (r ∷ [])))

-- A step that comes behind another and leaves the world alone.
then_run-same {ℓ κ} :
    {A : Type ℓ} {B : Type κ} (r : Result Fault A) (w : World) (f : A → Exec B)
    → ((a : A) → (f a w).1 ≡ w)
    → (then_run r w f).1 ≡ w
then_run-same (ok a) w f h = h a
then_run-same (err e) w f h = refl

-- A step that comes behind one that left the world alone.
then_run-Trip {ℓ κ} :
    {A : Type ℓ} {B : Type κ} (r : Result Fault A) (w : World) (f : A → Exec B)
    → ((a : A) → Trip w (f a w).1)
    → Trip w (then_run r w f).1
unfolding Trip
then_run-Trip (ok a) w f h = h a
then_run-Trip (err e) w f h = inl refl

module _ (env : Env) where
  open env use {clock}
  open clock use {Time}

  receive-Trip : (rs : List Reply) (r : HttpRequest) (w : World) → Trip w (receive env rs r w).1
  unfolding receive Trip
  receive-Trip [] r w = inr (r, refl)
  receive-Trip (x ∷ rs) r w = inr (r, refl)

  post-Trip : (o : Option HttpRequest) (w : World) → Trip w (post env o w).1
  unfolding post Trip
  post-Trip none w = inl refl
  post-Trip (some r) w = receive-Trip w.replies r w

  settle-sent : (b : Bool) (s : Sending) (w : World) → (settle env b (s, w)).1.sent ≡ w.sent
  unfolding settle keep
  settle-sent b (got p) w = kept (index_panics env p.results)
    where
      kept : (panics : Bool) → (keep env panics p b w).1.sent ≡ w.sent
      kept true = refl
      kept false = refl
  settle-sent b (refused c f) w = refl

  send-Trip : (msg : PipelineRequest) (b : Bool) (w : World) → Trip w (send env msg b w).1
  unfolding send Trip
  send-Trip msg b w =
      let posted = post env (http_request env w.conn (prepare w.conn msg)) w in
      if_both {A = Result Fault PipelineResponse × World} (λ r. Trip w r.1) w.conn.stream_closed
        (inl refl)
        (rw (settle-sent b posted.0 posted.1)
          (post-Trip (http_request env w.conn (prepare w.conn msg)) w))

  report-same : (p : PipelineResponse) (o : Option Fault) (w : World) → (report env p o w).1 ≡ w
  report-same p none w = refl
  report-same p (some f) w = refl

  pub execute_msg-Trip : (msg : PipelineRequest) (w : World) → Trip w (execute_msg env msg w).1
  unfolding execute_msg
  execute_msg-Trip msg w =
      let r = send env msg false w in
      subst (Trip w)
        (sym (
          then_run-same r.0 r.1 (checked env)
            (λ p. report-same p (check_results env p.results) r.1)))
        (send-Trip msg false w)

  execute_parsed-Trip :
      (want_rows : Bool) (a : List Text × List (Params Time)) (w : World)
      → Trip w (execute_parsed env want_rows a w).1
  unfolding execute_parsed
  execute_parsed-Trip want_rows (stmts, ps) w =
      then_run-Trip (wrapped (message_of env w.conn.schema_db stmts ps want_rows)) w
        (execute_request env) (λ r. execute_msg-Trip (add_request empty_message r) w)

  execute_whole-Trip :
      (query : Text) (args : List (NamedValue Time)) (want_rows : Bool) (w : World)
      → Trip w (execute_whole env query args want_rows w).1
  unfolding execute_whole
  execute_whole-Trip query args want_rows w =
      then_run-Trip (wrapped (parse env query args)) w (execute_parsed env want_rows)
        (λ a. execute_parsed-Trip want_rows a w)

  pub execute_stmt-whole :
      (query : Text) (args : List (NamedValue Time)) (want_rows : Bool) (w : World)
      → length query ≤ query_size_limit
      → execute_stmt env query args want_rows w ≡ execute_whole env query args want_rows w
  unfolding execute_stmt
  execute_stmt-whole query args want_rows w short =
      let small : ltb query_size_limit (length query) ≡ false = ground arith in
      rw (small, and_false (length args == 0) (not w.conn.schema_db)) refl
    where
      and_false : (x y : Bool) → (x && false && y) ≡ false
      and_false true y = refl
      and_false false y = refl

  -- `ExecContext` of a text of at most 20 MiB sends at most one request, however many statements and
  -- arguments there are and whatever goes wrong.
  pub exec_context-Trip :
      (query : Text) (args : List (NamedValue Time)) (w : World)
      → length query ≤ query_size_limit
      → Trip w (exec_context env query args w).1
  unfolding exec_context
  exec_context-Trip query args w short =
      let r = execute_stmt env query args false w in
      subst (Trip w)
        (sym (
            ap (λ (s : Result Fault PipelineResponse × World). s.1)
              (execute_stmt-whole query args false w short))
          ∙ sym (then_run-same r.0 r.1 (exec_answer env) (λ p. refl)))
        (execute_whole-Trip query args false w)
