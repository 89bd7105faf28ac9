-- ===== src/Conn/World.antt =====
-- The state of a connection, what it sends and receives, and what it takes from elsewhere.
use libsql_client_go.Base.{ℕ, Bool, true, false, Option, List, if◌then◌else◌}
use libsql_client_go.Base.Texts.{Text}
use libsql_client_go.Base.Results.{Result, ok, err}
use libsql_client_go.Tokens.{Token}
use libsql_client_go.Params.Errors.{ParamError}
use libsql_client_go.Hrana.Value.{Clock}
use libsql_client_go.Hrana.Json.{Json}
use libsql_client_go.Hrana.Request.{PipelineRequest, BatchError}
use libsql_client_go.Hrana.Response.{Numbers, ResultError}

-- What the code takes from the Go library and from the generated lexer: encoding/json's parser and
-- whether it can write a message, url.JoinPath with net/http's parse of the joined URL, the version of the build; and for a text its
-- tokens, its end token and `GetText`.
pub record Env : Type 1 where
  pub clock : Clock
  pub numbers : Numbers
  pub parse_json : Text → Option Json
  pub marshals : PipelineRequest → Bool
  pub join_path : Text → Text → Option Text
  pub commit_hash : Text
  pub tokens : Text → List Token
  pub end_token : Text → Token
  pub get_text : Text → ℕ → ℕ → Text

-- The errors that the methods return, as far as the code tells them apart. `in_sql` is the
-- "failed to execute SQL" that wraps another; `panicked` is a run-time panic,
-- and `stuck` a loop that has spent its fuel or a splitter that gives no statement.
pub data Fault : Type 0 where
  closed_stream : Fault
  not_sent : Fault
  transport : Text → Fault
  status_error : ℕ → Text → Fault
  coded_error expired_stream : Text → Text → Fault
  server_message : Text → Fault
  bad_body no_response : Fault
  in_sql : Fault → Fault
  bad_params : ParamError → Fault
  bad_batch : BatchError → Fault
  bad_result : ResultError → Fault
  unknown_response : Text → Fault
  not_one_statement : ℕ → Fault
  read_only_unsupported isolation_unsupported : Fault
  panicked stuck : Fault

-- errors.Is(err, driver.ErrBadConn)
abbrev pub is_bad_conn : Fault → Bool
is_bad_conn closed_stream = true
is_bad_conn (expired_stream code message) = true
is_bad_conn (in_sql f) = is_bad_conn f
is_bad_conn _ = false

-- `hranaV2Conn`
pub record Conn : Type 0 where
  pub url : Text
  pub jwt : Text
  pub host : Text
  pub schema_db : Bool
  pub remote_encryption_key : Text
  pub request_headers : List (Text × Text)
  pub baton : Text
  pub stream_closed : Bool
  pub replication_index : ℕ

-- A POST to the pipeline. The body is the message.
pub record HttpRequest : Type 0 where
  pub url : Text
  pub host : Text
  pub headers : List (Text × Text)
  pub message : PipelineRequest

-- What the network gives: an error before or while the body is read, or a status and a body.
pub data Reply : Type 0 where
  failed : Text → Reply
  answered : ℕ → Text → Reply

-- The requests that were made, the replies that will come, and the requests that were handed to
-- goroutines of their own, whose replies nobody reads.
pub record World : Type 0 where
  pub conn : Conn
  pub sent : List HttpRequest
  pub replies : List Reply
  pub spawned : List HttpRequest

-- A method that may fail, and changes the world either way.
abbrev pub Exec {ℓ} : Type ℓ → Type ℓ
Exec A = World → Result Fault A × World

abbrev pub pure {ℓ} : {A : Type ℓ} → A → Exec A
pure a w = (ok a, w)

abbrev pub raise {ℓ} : {A : Type ℓ} → Fault → Exec A
raise f w = (err f, w)

abbrev pub lift {ℓ} : {A : Type ℓ} → Result Fault A → Exec A
lift r w = (r, w)

abbrev pub then_run {ℓ κ} :
    {A : Type ℓ} {B : Type κ} → Result Fault A → World → (A → Exec B) → Result Fault B × World
then_run (ok a) w f = f a w
then_run (err e) w f = (err e, w)

infixl 5 ◌>>=◌ ◌>>◌
abbrev pub ◌>>=◌ {ℓ κ} : {A : Type ℓ} {B : Type κ} → Exec A → (A → Exec B) → Exec B
◌>>=◌ m f w = then_run (m w).0 (m w).1 f

abbrev pub ◌>>◌ {ℓ κ} : {A : Type ℓ} {B : Type κ} → Exec A → Exec B → Exec B
m >> k = m >>= λ _. k

abbrev pub is_panic : Fault → Bool
is_panic panicked = true
is_panic _ = false

-- A panic goes past the callers.
abbrev pub in_sql_of : Fault → Fault
in_sql_of f = if is_panic f then f else in_sql f

abbrev pub wrapped {ℓ} : {A : Type ℓ} → Result Fault A → Result Fault A
wrapped (ok a) = ok a
wrapped (err f) = err (in_sql_of f)

-- fmt.Errorf("failed to execute SQL: … %w", err)
abbrev pub wrap {ℓ} : {A : Type ℓ} → Exec A → Exec A
wrap m w = (wrapped (m w).0, (m w).1)
