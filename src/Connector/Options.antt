-- ===== src/Connector/Options.antt =====
-- `config` and the options of `NewConnector`.
use libsql_client_go.Base.{Bool, true, false, Option, none, some, List, [], ◌∷◌}
use libsql_client_go.Base.Texts.{Text, is_empty}
use libsql_client_go.Base.Results.{Result, ok, err}
use libsql_client_go.Base.Decimal.{ℤ}

-- `request_headers` is `none` for the nil map. An interval is a time.Duration.
pub record Config : Type 0 where
  pub auth_token : Option Text
  pub tls : Option Bool
  pub proxy : Option Text
  pub schema_db : Option Bool
  pub remote_encryption_key : Option Text
  pub request_headers : Option (List (Text × Text))
  pub keepalive_interval : Option ℤ

abbrev pub empty_config : Config
empty_config = record {
  auth_token = none;
  tls = none;
  proxy = none;
  schema_db = none;
  remote_encryption_key = none;
  request_headers = none;
  keepalive_interval = none;
}

-- What `WithAuthToken` and the others return.
pub data ConfigOption : Type 0 where
  with_auth_token : Text → ConfigOption
  with_tls : Bool → ConfigOption
  with_proxy : Text → ConfigOption
  with_schema_db : Bool → ConfigOption
  with_remote_encryption_key : Text → ConfigOption
  with_request_headers : List (Text × Text) → ConfigOption
  with_keep_alive : ℤ → ConfigOption

pub data OptionError : Type 0 where
  already_set must_not_be_empty : OptionError

-- A setting that is there cannot be set again.
abbrev pub unset {ℓ} : {A : Type ℓ} → Option A → Config → Result OptionError Config
unset none c = ok c
unset (some a) c = err already_set

-- Nor can it be set to an empty text or map.
abbrev pub unset_filled {ℓ} : {A : Type ℓ} → Option A → Bool → Config → Result OptionError Config
unset_filled (some a) empty c = err already_set
unset_filled none true c = err must_not_be_empty
unset_filled none false c = ok c

abbrev pub no_headers : List (Text × Text) → Bool
no_headers [] = true
no_headers (h ∷ hs) = false

-- `apply`
unfoldable pub apply : ConfigOption → Config → Result OptionError Config
apply (with_auth_token t) c =
    unset_filled c.auth_token (is_empty t) (record c { auth_token = some t })
apply (with_tls b) c = unset c.tls (record c { tls = some b })
apply (with_proxy t) c = unset_filled c.proxy (is_empty t) (record c { proxy = some t })
apply (with_schema_db b) c = unset c.schema_db (record c { schema_db = some b })
apply (with_remote_encryption_key t) c =
    unset_filled c.remote_encryption_key (is_empty t) (record c { remote_encryption_key = some t })
apply (with_request_headers hs) c =
    unset_filled c.request_headers (no_headers hs) (record c { request_headers = some hs })
apply (with_keep_alive i) c = ok (record c { keepalive_interval = some i })

-- The loop of `NewConnector`: a failing option leaves the configuration and its error is kept.
abbrev pub kept : Config → Result OptionError Config → Config
kept c (ok d) = d
kept c (err e) = c

abbrev pub errors_of : Result OptionError Config → List OptionError → List OptionError
errors_of (ok d) es = es
errors_of (err e) es = e ∷ es

unfoldable pub apply_all : List ConfigOption → Config → Config × List OptionError
unfolding apply
apply_all [] c = (c, [])
apply_all (o ∷ os) c =
    let r = apply o c in let rest = apply_all os (kept c r) in (rest.0, errors_of r rest.1)
