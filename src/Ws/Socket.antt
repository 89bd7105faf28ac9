-- ===== src/Ws/Socket.antt =====
-- The socket of libsql/internal/ws/websockets.go: what is written to it and read from it. The
-- package websocket is not part of the program; whether each write goes through and what each read
-- gives is what the world holds.
use libsql_client_go.Base.{ℕ, Bool, true, false, Option, none, some, List, [], ◌∷◌, ◌++◌}
use libsql_client_go.Base.Texts.{Text}
use libsql_client_go.Base.Results.{Result, ok, err}
use libsql_client_go.Hrana.Value.{Value}
use libsql_client_go.Ws.{Unsupported}
use libsql_client_go.Ws.Dynamic.{Dynamic, Panic}

-- The map `stmt`; `args` and `named_args` are missing where there are none.
pub record Stmt : Type 0 where
  pub sql : Text
  pub want_rows : Bool
  pub args : Option (List Value)
  pub named_args : Option (List (Text × Value))

-- The requests, with the number of their stream.
pub data Request : Type 0 where
  open_stream : ℕ → Request
  execute : ℕ → Stmt → Request

pub data Message : Type 0 where
  hello : Text → Message
  request : ℕ → Request → Message

-- `of_package` is the reason that the package chooses when it closes a connection by itself.
pub data StatusCode : Type 0 where
  status_normal_closure status_protocol_error status_internal_error of_package : StatusCode

-- `written` are the messages that went out, `writes` tells whether the coming writes do, and
-- `reads` what the coming reads give; behind their ends each fails.
pub record Socket : Type 0 where
  pub written : List Message
  pub writes : List Bool
  pub reads : List (Option Dynamic)
  pub closed : Option StatusCode

pub data Fault : Type 0 where
  dial_failed : Fault
  write_failed read_failed : Fault
  unsupported_value : Unsupported → Fault
  server_error handshake_error stream_error : Text → Fault
  bad_value : Fault
  panicked : Panic → Fault
  pool_panic : Fault

-- `Close` of the socket; only the first counts.
unfoldable pub close_with : StatusCode → Socket → Socket
close_with code s = elim s.closed [ none ↦ record s { closed = some code } | some c ↦ s ]

-- wsjson.Write. On any error the package closes the connection.
unfoldable pub write : Message → Socket → Bool × Socket
unfolding close_with
write m s = elim s.writes [
  | [] ↦ (false, close_with of_package s)
  | true ∷ rest ↦ (true, record s { written = s.written ++ (m ∷ []); writes = rest })
  | false ∷ rest ↦ (false, close_with of_package (record s { writes = rest }))
]

-- What a read gives, and the socket behind it.
unfoldable pub taken : Option Dynamic → Socket → Option Dynamic × Socket
unfolding close_with
taken none s = (none, close_with of_package s)
taken (some d) s = (some d, s)

-- wsjson.Read, which closes on an error as well.
unfoldable pub read : Socket → Option Dynamic × Socket
unfolding taken
read s = elim s.reads [ [] ↦ taken none s | r ∷ rest ↦ taken r (record s { reads = rest }) ]

-- What may fail, and changes the socket either way.
abbrev pub Io {ℓ} : Type ℓ → Type ℓ
Io A = Socket → Result Fault A × Socket

abbrev pub pure {ℓ} : {A : Type ℓ} → A → Io A
pure a s = (ok a, s)

abbrev pub raise {ℓ} : {A : Type ℓ} → Fault → Io A
raise f s = (err f, s)

abbrev pub then_run {ℓ κ} :
    {A : Type ℓ} {B : Type κ} → Result Fault A → Socket → (A → Io B) → Result Fault B × Socket
then_run (ok a) s f = f a s
then_run (err e) s f = (err e, s)

infixl 5 ◌>>=◌
abbrev pub ◌>>=◌ {ℓ κ} : {A : Type ℓ} {B : Type κ} → Io A → (A → Io B) → Io B
◌>>=◌ m f s = then_run (m s).0 (m s).1 f

abbrev pub or_panic {ℓ} : {A : Type ℓ} → Result Panic A → Result Fault A
or_panic (ok a) = ok a
or_panic (err p) = err (panicked p)

-- An assertion in the middle of a method.
abbrev pub assert {ℓ} : {A : Type ℓ} → Result Panic A → Io A
assert r s = (or_panic r, s)
