-- ===== src/Ws/Exec.antt =====
-- `websocketConn.exec`, its pool of request ids and `Close`.
use libsql_client_go.Base.{ℕ, Bool, Option, none, some, List, [], ◌∷◌, if◌then◌else◌}
use libsql_client_go.Base.Texts.{Text, codes}
use libsql_client_go.Base.Results.{Result, ok, err, ◌>>=◌ as ◌>>=ᵣ◌}
use libsql_client_go.Values.{GoValue}
use libsql_client_go.Hrana.Value.{Value}
use libsql_client_go.IdPool.{IdPool, get, put, PutResult, done, panic}
use libsql_client_go.Ws.{Unsupported, convert_value}
use libsql_client_go.Ws.Dynamic.{Dynamic, Members, as_object, at, error_msg, is_error_resp}
use libsql_client_go.Ws.Socket.{
  Stmt, execute, request, Socket, status_normal_closure, Fault, write_failed, read_failed,
  unsupported_value, server_error, pool_panic, write, read, close_with, Io, raise, ◌>>=◌, or_panic,
}

-- `params`
pub record Params (Time : Type 0) : Type 0 where
  pub positional_args : List (GoValue Time)
  pub named_args : List (Text × GoValue Time)

-- `websocketConn`
pub record WebsocketConn : Type 0 where
  pub socket : Socket
  pub id_pool : IdPool

-- A loop over no argument leaves the key of its list out.
abbrev pub unless_empty {ℓ} : {A : Type ℓ} → List A → Option (List A)
unless_empty [] = none
unless_empty (x ∷ xs) = some (x ∷ xs)

module _ {Time : Type 0} where
  unfoldable pub convert_args : List (GoValue Time) → Result Unsupported (List Value)
  convert_args [] = ok []
  convert_args (a ∷ rest) = elim (convert_value a) [
    | err u ↦ err u
    | ok v ↦ elim (convert_args rest) [ err u ↦ err u | ok vs ↦ ok (v ∷ vs) ]
  ]

  unfoldable pub convert_named_args :
      List (Text × GoValue Time) → Result Unsupported (List (Text × Value))
  convert_named_args [] = ok []
  convert_named_args ((name, a) ∷ rest) = elim (convert_value a) [
    | err u ↦ err u
    | ok v ↦ elim (convert_named_args rest) [ err u ↦ err u | ok vs ↦ ok ((name, v) ∷ vs) ]
  ]

  -- The map `stmt`.
  unfoldable pub build_stmt : Text → Params Time → Bool → Result Unsupported Stmt
  unfolding convert_args convert_named_args
  build_stmt sql p want_rows = elim (convert_args p.positional_args) [
    | err u ↦ err u
    | ok vs ↦ elim (convert_named_args p.named_args) [
      | err u ↦ err u
      | ok nvs ↦ ok (record {
        sql = sql;
        want_rows = want_rows;
        args = unless_empty vs;
        named_args = unless_empty nvs;
      })
    ]
  ]

-- `wsjson.Write` and `wsjson.Read` in `exec`.
unfoldable pub send : ℕ → Stmt → Io {0} Unit
unfolding write
send id stmt s =
    let r = write (request id (execute 0 stmt)) s in (if r.0 then ok tt else err write_failed, r.1)

unfoldable pub receive : Io Dynamic
unfolding read
receive s = let r = read s in (elim r.0 [ none ↦ err read_failed | some d ↦ ok d ], r.1)

-- The object under a key.
abbrev pub inner : Text → Members → Result Fault Members
inner k m = or_panic (as_object (at k m))

-- What `exec` makes of a response.
unfoldable pub failure_of : Dynamic → Result Fault Members
unfolding error_msg
failure_of resp = or_panic (error_msg resp) >>=ᵣ λ message. err (server_error message)

unfoldable pub result_of : Dynamic → Result Fault Members
unfolding as_object at
result_of resp = or_panic (as_object resp) >>=ᵣ inner (codes "response") >>=ᵣ inner (codes "result")

unfoldable pub answer : Dynamic → Result Fault Members
unfolding is_error_resp failure_of result_of
answer resp =
    or_panic (is_error_resp resp) >>=ᵣ λ bad. if bad then failure_of resp else result_of resp

-- `exec` between `Get` and `Put`.
abbrev pub exchange : ℕ → Result Unsupported Stmt → Io Members
exchange id (err u) = raise (unsupported_value u)
exchange id (ok stmt) = do u ← send id stmt; resp ← receive; (λ s. (answer resp, s))

-- The deferred `Put`: it runs on every way out of `exec`, panics included.
abbrev pub put_back {ℓ} :
    {A : Type ℓ} → Result Fault A → Socket → IdPool → PutResult → Result Fault A × WebsocketConn
put_back r s pool (done p) = (r, record { socket = s; id_pool = p })
put_back r s pool (panic why) = (err pool_panic, record { socket = s; id_pool = pool })

abbrev pub exec_with {ℓ} :
    {A : Type ℓ} → (ℕ → Io A) → ℕ × IdPool → Socket → Result Fault A × WebsocketConn
exec_with body got s = let r = body got.0 s in put_back r.0 r.1 got.1 (put got.0 got.1)

module _ {Time : Type 0} where
  -- `walk` is where the pool's map begins its walk.
  unfoldable pub exec :
      ℕ → WebsocketConn → Text → Params Time → Bool → Result Fault Members × WebsocketConn
  unfolding build_stmt get put send receive answer
  exec walk ws sql p want_rows =
      exec_with (λ id. exchange id (build_stmt sql p want_rows)) (get walk ws.id_pool) ws.socket

-- `Close`
unfoldable pub close : WebsocketConn → WebsocketConn
unfolding close_with
close ws = record ws { socket = close_with status_normal_closure ws.socket }
