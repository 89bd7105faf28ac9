-- ===== src/Ws/Pool.antt =====
-- What a call of `exec` does to the pool of request ids and to the socket.
use libsql_client_go.Base.{
  ℕ, ◌+◌, ◌<◌, ◌≡◌, ◌≢◌, ◌⊎◌, refl, sym, inl, inr, Bool, true, false, Option, none, some, List, [],
  ◌∷◌, ◌++◌, length, get_or, Bool-cases, if◌then◌else◌, arith,
}
use libsql_client_go.Base.Texts.{Text}
use libsql_client_go.Base.Results.{Result, ok, err}
use libsql_client_go.IdPool.{IdPool, delete, get, u32_mod}
use libsql_client_go.IdPool.Unique.{Tracks, Fresh, count, get-Tracks, put-Tracks}
use libsql_client_go.Ws.{Unsupported}
use libsql_client_go.Ws.Dynamic.{Dynamic, Members}
use libsql_client_go.Ws.Socket.{
  Stmt, execute, request, Socket, Fault, pool_panic, write_failed, read_failed, write, read, Io,
}
use libsql_client_go.Ws.Exec.{
  WebsocketConn, Params, build_stmt, send, receive, answer, result_of, failure_of, exchange,
  exec_with, exec,
}

delete-absent : (ks : List ℕ) (k : ℕ) → count ks k ≡ 0 → delete ks k ≡ ks
unfolding delete count
delete-absent [] k h = refl
delete-absent (j ∷ ks) k h = ground (arith, delete-absent ks k)

-- `Put` behind a body gives the id back, and the body's result is the call's.
pub exec_with-Tracks {ℓ} :
    {A : Type ℓ} (body : ℕ → Io A) (got : ℕ × IdPool) (s : Socket) (held : List ℕ)
    → Tracks (got.0 ∷ held) got.1
    → Fresh held got.0 got.1
    → (q : IdPool) × (exec_with body got s
        ≡ ((body got.0 s).0, record { socket = (body got.0 s).1; id_pool = q }))
      × Tracks held q
exec_with-Tracks body got s held t f =
    let here : 0 < count (got.0 ∷ held) got.0 = unfold count in ground arith in
    let (q, given, kept) = put-Tracks (got.0 ∷ held) got.1 t got.0 here in
    let same : delete (got.0 ∷ held) got.0 ≡ held =
      unfold delete in ground (arith, delete-absent held got.0 f.unused) in
    (q, rw given refl, rw (sym same) kept)

-- A call with a statement writes its request, with an id that no other call has, or nothing.
unfoldable pub Sent : List ℕ → Result Unsupported Stmt → Socket → Socket → Type 0
Sent held (err u) before after = after ≡ before
Sent held (ok stmt) before after =
    (after.written ≡ before.written)
    ⊎ ((id : ℕ) × (count held id ≡ 0)
        × (after.written ≡ before.written ++ (request id (execute 0 stmt) ∷ [])))

-- The first write tells whether the request goes out.
exchange-written :
    (id : ℕ) (stmt : Stmt) (s : Socket)
    → (exchange id (ok stmt) s).1.written ≡ (
        if get_or s.writes 0 false
        then s.written ++ (request id (execute 0 stmt) ∷ [])
        else s.written)
unfolding send receive write read
exchange-written id stmt s = ground arith

exchange-Sent :
    (held : List ℕ) (id : ℕ) (b : Result Unsupported Stmt) (s : Socket)
    → count held id ≡ 0
    → Sent held b s (exchange id b s).1
unfolding Sent
exchange-Sent held id (err u) s h = refl
exchange-Sent held id (ok stmt) s h = elim (Bool-cases (get_or s.writes 0 false)) [
  | inl e ↦ inr (id, h, ground (arith, exchange-written id stmt s))
  | inr e ↦ inl (ground (arith, exchange-written id stmt s))
]

answer-fault : (d : Dynamic) → answer d ≢ err pool_panic
unfolding answer failure_of result_of
answer-fault d = ground arith

-- The result of a call by what the first write and the first read give.
abbrev pub answered : Bool → Option Dynamic → Result Fault Members
answered false d = err write_failed
answered true none = err read_failed
answered true (some d) = answer d

pub exchange-result :
    (id : ℕ) (stmt : Stmt) (s : Socket)
    → (exchange id (ok stmt) s).0 ≡ answered (get_or s.writes 0 false) (get_or s.reads 0 none)
unfolding send receive write read
exchange-result id stmt s = ground arith

answered-fault : (b : Bool) (d : Option Dynamic) → answered b d ≢ err pool_panic
answered-fault false d = λ e. cc
answered-fault true none = λ e. cc
answered-fault true (some d) = answer-fault d

exchange-fault :
    (id : ℕ) (b : Result Unsupported Stmt) (s : Socket) → (exchange id b s).0 ≢ err pool_panic
exchange-fault id (err u) s = λ e. cc
exchange-fault id (ok stmt) s =
    rw (exchange-result id stmt s)
      (answered-fault (get_or s.writes 0 false) (get_or s.reads 0 none))

-- A call of `exec`, on a pool that knows the ids that other calls use: it does not panic in the
-- pool, and leaves the pool as one of the same ids, on every way out of the call; it writes its
-- request with an id that none of the others has, or nothing, and nothing if a value is unsupported.
pub exec-Tracks :
    {Time : Type 0} (held : List ℕ) (ws : WebsocketConn) (walk : ℕ) (sql : Text) (p : Params Time)
    (want_rows : Bool)
    → Tracks held ws.id_pool
    → length held + 1 < u32_mod
    → let (r, after) = exec walk ws sql p want_rows in
      (r ≢ err pool_panic)
      × Tracks held after.id_pool
      × Sent held (build_stmt sql p want_rows) ws.socket after.socket
unfolding exec
exec-Tracks held ws walk sql p want_rows t h =
    let b = build_stmt sql p want_rows in
    let got = get walk ws.id_pool in
    let (tracks, fresh) = get-Tracks held ws.id_pool t walk h in
    let (q, same, kept) = exec_with-Tracks (λ id. exchange id b) got ws.socket held tracks fresh in
    rw same
      (exchange-fault got.0 b ws.socket, kept, exchange-Sent held got.0 b ws.socket fresh.unused)
