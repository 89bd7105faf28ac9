-- ===== src/Ws/Calls.antt =====
-- Calls of `exec` one after the other, over a socket that delivers.
use mathlib.Core.List.{append-nil, append_assoc}
use libsql_client_go.Base.{
  ℕ, ◌+◌, ◌<◌, ◌≡◌, refl, sym, ap, ◌∙◌, Bool, true, Option, some, List, [], ◌∷◌, ◌++◌, map, length,
  arith,
}
use libsql_client_go.Base.Texts.{Text}
use libsql_client_go.Base.Results.{Result, ok}
use libsql_client_go.IdPool.{get, u32_mod}
use libsql_client_go.IdPool.Unique.{Tracks, get-Tracks}
use libsql_client_go.Ws.{Unsupported}
use libsql_client_go.Ws.Dynamic.{Dynamic, Members}
use libsql_client_go.Ws.Socket.{
  Stmt, execute, Message, hello, request, open_stream, Socket, Fault, write, read,
}
use libsql_client_go.Ws.Exec.{
  WebsocketConn, Params, build_stmt, send, receive, answer, exchange, exec,
}
use libsql_client_go.Ws.Pool.{exec_with-Tracks, exchange-result}

-- A call of `exec`.
pub record Query (Time : Type 0) : Type 0 where
  pub walk : ℕ
  pub sql : Text
  pub params : Params Time
  pub want_rows : Bool

-- What a message that goes out has as its statement.
abbrev pub stmts_of : List Message → List Stmt
stmts_of [] = []
stmts_of (request id (execute stream stmt) ∷ ms) = stmt ∷ stmts_of ms
stmts_of (m ∷ ms) = stmts_of ms

exchange-rest :
    (id : ℕ) (stmt : Stmt) (s : Socket) (d : Dynamic) (more : List Bool)
    (later : List (Option Dynamic))
    → s.writes ≡ true ∷ more
    → s.reads ≡ some d ∷ later
    → let after = (exchange id (ok stmt) s).1 in
      (after.writes ≡ more)
      × (after.reads ≡ later)
      × (after.closed ≡ s.closed)
      × (after.written ≡ s.written ++ (request id (execute 0 stmt) ∷ []))
unfolding send receive write read
exchange-rest id stmt s d more later ws rs = ground arith

-- A socket whose next writes go through, as many as there are responses, and whose next reads give
-- these.
unfoldable pub Delivers : List Dynamic → List (Option Dynamic) → Socket → Type 0
Delivers ds later s =
    ((more : List Bool) × (s.writes ≡ map (λ d. true) ds ++ more))
    × (s.reads ≡ map some ds ++ later)

stmts_of-append : (ms ns : List Message) → stmts_of (ms ++ ns) ≡ stmts_of ms ++ stmts_of ns
stmts_of-append [] ns = refl
stmts_of-append (request id (execute stream stmt) ∷ ms) ns =
    ap (λ ss. stmt ∷ ss) (stmts_of-append ms ns)
stmts_of-append (request id (open_stream stream) ∷ ms) ns = stmts_of-append ms ns
stmts_of-append (hello jwt ∷ ms) ns = stmts_of-append ms ns

module _ {Time : Type 0} where
  abbrev pub stmt_of : Query Time → Result Unsupported Stmt
  stmt_of q = build_stmt q.sql q.params q.want_rows

  -- The calls in order: their results, and the connection behind them.
  unfoldable pub exec_all :
      List (Query Time) → WebsocketConn → List (Result Fault Members) × WebsocketConn
  unfolding exec
  exec_all [] ws = ([], ws)
  exec_all (q ∷ qs) ws =
      let r = exec q.walk ws q.sql q.params q.want_rows in
      let rest = exec_all qs r.1 in (r.0 ∷ rest.0, rest.1)

  -- Every call can be sent, as these statements.
  pub data Builds : List (Query Time) → List Stmt → Type 0 where
    no_call : Builds [] []
    a_call :
        {q : Query Time} {qs : List (Query Time)} {stmt : Stmt} {stmts : List Stmt}
        → stmt_of q ≡ ok stmt
        → Builds qs stmts
        → Builds (q ∷ qs) (stmt ∷ stmts)

  exec-answer :
      (q : Query Time) (stmt : Stmt) (held : List ℕ) (ws : WebsocketConn) (d : Dynamic)
      (more : List Bool) (later : List (Option Dynamic))
      → stmt_of q ≡ ok stmt
      → Tracks held ws.id_pool
      → length held + 1 < u32_mod
      → ws.socket.writes ≡ true ∷ more
      → ws.socket.reads ≡ some d ∷ later
      → let (r, after) = exec q.walk ws q.sql q.params q.want_rows in
        (r ≡ answer d)
        × Tracks held after.id_pool
        × (after.socket.writes ≡ more)
        × (after.socket.reads ≡ later)
        × ((id : ℕ) × (after.socket.written
              ≡ ws.socket.written ++ (request id (execute 0 stmt) ∷ [])))
  unfolding exec
  exec-answer q stmt held ws d more later built t h writes reads =
      let got = get q.walk ws.id_pool in
      let (tracks, fresh) = get-Tracks held ws.id_pool t q.walk h in
      let (p, same, kept) =
        exec_with-Tracks (λ id. exchange id (ok stmt)) got ws.socket held tracks fresh in
      let rest = exchange-rest got.0 stmt ws.socket d more later writes reads in
      let result = exchange-result got.0 stmt ws.socket in
      rw (built, same) (result ∙ rw (writes, reads) refl, kept, rest.0, rest.1, (got.0, rest.3))

  -- Where the socket delivers one response for each call, in order, and all values of the calls can
  -- be sent, every call returns what its own response says; the statements go out in the order of
  -- the calls, each once, and the ids of other calls stay theirs.
  pub exec_all-answers :
      (qs : List (Query Time)) (stmts : List Stmt) (ds : List Dynamic)
      (later : List (Option Dynamic)) (held : List ℕ) (ws : WebsocketConn)
      → Builds qs stmts
      → length ds ≡ length qs
      → Tracks held ws.id_pool
      → length held + 1 < u32_mod
      → Delivers ds later ws.socket
      → let (rs, after) = exec_all qs ws in
        (rs ≡ map answer ds)
        × (stmts_of after.socket.written ≡ stmts_of ws.socket.written ++ stmts)
        × (after.socket.reads ≡ later)
        × Tracks held after.id_pool
  unfolding exec_all Delivers
  exec_all-answers [] [] [] later held ws no_call e t h f =
      (refl, sym (append-nil (stmts_of ws.socket.written)), f.1, t)
  exec_all-answers [] [] (d ∷ ds) later held ws no_call e t h f = absurd (ground arith)
  exec_all-answers [] (stmt ∷ stmts) ds later held ws bs e t h f = elim bs [ ]
  exec_all-answers (q ∷ qs) [] ds later held ws bs e t h f = elim bs [ ]
  exec_all-answers (q ∷ qs) (stmt ∷ stmts) [] later held ws (a_call built bs) e t h f =
      absurd (ground arith)
  exec_all-answers (q ∷ qs) (stmt ∷ stmts) (d ∷ ds) later held ws (a_call built bs) e t h f =
      let (answered, kept, writes, reads, out) =
        exec-answer q stmt held ws d _ _ built t h f.0.1 f.1 in
      let next = (exec q.walk ws q.sql q.params q.want_rows).1 in
      let (rs, sent, rest, done) =
        exec_all-answers qs stmts ds later held next bs (omega (arith, e)) kept h
          ((f.0.0, writes), reads) in
      (
        ap (λ r. r ∷ (exec_all qs next).0) answered ∙ ap (λ rs. answer d ∷ rs) rs,
        sent
            ∙ (ap (λ ms. stmts_of ms ++ stmts) out.1
                ∙ (ap (λ ss. ss ++ stmts)
                      (stmts_of-append ws.socket.written (request out.0 (execute 0 stmt) ∷ []))
                    ∙ append_assoc (stmts_of ws.socket.written) (stmt ∷ []) stmts)),
        rest,
        done,
      )
