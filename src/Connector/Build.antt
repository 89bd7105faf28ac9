-- ===== src/Connector/Build.antt =====
-- `config.connector`, `withKeepAlive` and `NewConnector`.
use libsql_client_go.Base.{
  suc, Bool, true, false, not, ◌&&◌, ◌||◌, Option, none, some, List, [], ◌∷◌, ◌++◌, if◌then◌else◌,
}
use libsql_client_go.Base.Texts.{Text, codes, text_eq, is_empty, starts_with}
use libsql_client_go.Base.Results.{Result, ok, err, ◌>>=◌}
use libsql_client_go.Base.Decimal.{ℤ, pos}
use libsql_client_go.Query.{Values, has_key}
use libsql_client_go.Keepalive.{new_keepalive_connector}
use libsql_client_go.Connector.Options.{Config, empty_config, ConfigOption, OptionError, apply_all}
use libsql_client_go.Connector.Parts.{
  Url, Platform, ConnectorError, bad_url, bad_file_url, no_sqlite, sqlite_open_failed,
  unknown_parameter, needs_port, cannot_opt_out, cannot_opt_in, proxied_websocket, bad_proxy,
  unsupported_scheme, bad_options, Warning, token_conflict, tls_conflict, Connector, http_connector,
  ws_connector, file_connector, Decorated, bare, kept_alive, contains, extract_jwt, extract_tls,
}

-- A result, and what was logged on the way to it.
abbrev pub Logged : Type 0 → Type 0
Logged A = Result ConnectorError A × List Warning

-- The first `switch`: the option wins over the URL's token.
unfoldable pub settle_token : Option Text → Text → Option Text × List Warning
settle_token token [] = (token, [])
settle_token none (c ∷ url_token) = (some (c ∷ url_token), [])
settle_token (some t) (c ∷ url_token) =
    (some t, if text_eq t (c ∷ url_token) then [] else token_conflict ∷ [])

abbrev pub same_bool : Bool → Bool → Bool
same_bool true b = b
same_bool false b = not b

-- The second: so it does over the URL's tls, and `stated` is that the URL has one. Behind it the
-- configuration has a tls.
unfoldable pub settle_tls : Option Bool → Bool → Bool → Bool × List Warning
settle_tls none stated url_tls = (url_tls, [])
settle_tls (some b) stated url_tls =
    (b, if stated && not (same_bool b url_tls) then tls_conflict b ∷ [] else [])

abbrev pub text_or_empty : Option Text → Text
text_or_empty none = []
text_or_empty (some t) = t

abbrev pub no_values : Values → Bool
no_values [] = true
no_values (v ∷ q) = false

abbrev pub is_websocket : Text → Bool
is_websocket scheme = text_eq scheme (codes "wss") || text_eq scheme (codes "ws")

abbrev pub is_http : Text → Bool
is_http scheme = text_eq scheme (codes "https") || text_eq scheme (codes "http")

-- The checks that only libsql:// opts in or out of TLS.
unfoldable pub check_scheme : {Rest : Type 0} → Bool → Url Rest → Result ConnectorError (Url Rest)
check_scheme tls u =
    if (text_eq u.scheme (codes "wss") || text_eq u.scheme (codes "https")) && not tls
    then err cannot_opt_out
    else if (text_eq u.scheme (codes "ws") || text_eq u.scheme (codes "http")) && tls
    then err cannot_opt_in
    else ok u

module _ (platform : Platform) where
  open platform use {Rest, parse, parse_query, port, print, drivers, opens}

  -- The loop over the two drivers' names.
  unfoldable pub find_driver : List Text → Text → Result ConnectorError Text
  unfolding contains
  find_driver [] path = err no_sqlite
  find_driver (name ∷ names) path =
      let later = find_driver names path in
      if contains drivers name
      then (if opens name path then ok name else err sqlite_open_failed)
      else later

  abbrev pub expected_drivers : List Text
  expected_drivers = codes "sqlite" ∷ codes "sqlite3" ∷ []

  unfoldable pub connector_of_file : Text → Result ConnectorError Connector
  unfolding find_driver starts_with
  connector_of_file path =
      if starts_with (codes "file://") path && not (starts_with (codes "file:///") path)
      then err bad_file_url
      else (do name ← find_driver expected_drivers path; ok (file_connector name path))

  -- libsql:// becomes https:// or http://.
  unfoldable pub resolve_scheme : Bool → Url Rest → Result ConnectorError (Url Rest)
  resolve_scheme tls u =
      if not (text_eq u.scheme (codes "libsql"))
      then ok u
      else if tls
      then ok (record u { scheme = codes "https" })
      else if is_empty (port u.host)
      then err needs_port
      else ok (record u { scheme = codes "http" })

  abbrev pub towards_proxy : Url Rest → Url Rest → Url Rest
  towards_proxy proxy u = record u {
    host = proxy.host;
    scheme = if is_empty proxy.scheme then u.scheme else proxy.scheme;
  }

  unfoldable pub apply_proxy : Option Text → Url Rest → Result ConnectorError (Url Rest)
  apply_proxy none u = ok u
  apply_proxy (some proxy_url) u =
      if is_websocket u.scheme
      then err proxied_websocket
      else elim (parse proxy_url) [ none ↦ err bad_proxy | some proxy ↦ ok (towards_proxy proxy u) ]

  abbrev pub flag_or_false : Option Bool → Bool
  flag_or_false none = false
  flag_or_false (some b) = b

  abbrev pub headers_or_none : Option (List (Text × Text)) → List (Text × Text)
  headers_or_none none = []
  headers_or_none (some hs) = hs

  -- The connector of a URL behind all checks; `host` is that of the URL before the proxy.
  unfoldable pub make_connector :
      Config → Option Text → Text → Url Rest → Result ConnectorError Connector
  make_connector c token host u =
      if is_websocket u.scheme
      then ok (ws_connector (print u) (text_or_empty token))
      else if is_http u.scheme
      then ok (
          http_connector (print u) (text_or_empty token) host (flag_or_false c.schema_db)
            (text_or_empty c.remote_encryption_key) (headers_or_none c.request_headers))
      else err unsupported_scheme

  abbrev pub checked_connector :
      Config → Option Text → Bool → Url Rest → Result ConnectorError Connector
  checked_connector c token tls u = do
    checked ← check_scheme tls u
    proxied ← apply_proxy c.proxy checked
    make_connector c token checked.host proxied

  abbrev pub settled_connector :
      Config → Option Text → Bool → Url Rest → Result ConnectorError Connector
  settled_connector c token tls u =
      resolve_scheme tls (record u { raw_query = [] }) >>= checked_connector c token tls

  -- What comes behind the two switches.
  unfoldable pub finish_connector :
      Config → Option Text → Bool → Values → Url Rest → Result ConnectorError Connector
  unfolding resolve_scheme check_scheme apply_proxy make_connector
  finish_connector c token tls left u =
      if not (no_values left) then err unknown_parameter else settled_connector c token tls u

  -- By the URL's tls, and the query without it.
  abbrev pub connector_by_tls :
      Config
      → Option Text
      → Bool
      → Url Rest
      → Result ConnectorError (Bool × Values)
      → Logged Connector
  connector_by_tls c token stated u (err e) = (err e, [])
  connector_by_tls c token stated u (ok (url_tls, left)) =
      let settled = settle_tls c.tls stated url_tls in
      (finish_connector c token settled.0 left u, settled.1)

  -- By the URL's token, and the query without it.
  abbrev pub connector_by_token :
      Config → Url Rest → Result ConnectorError (Text × Values) → Logged Connector
  connector_by_token c u (err e) = (err e, [])
  connector_by_token c u (ok (url_token, q)) =
      let settled = settle_token c.auth_token url_token in
      let rest =
        connector_by_tls c settled.0 (has_key (codes "tls") q) u (extract_tls q u.scheme) in
      (rest.0, settled.1 ++ rest.1)

  unfoldable pub connector_of_remote : Config → Url Rest → Logged Connector
  unfolding extract_jwt extract_tls settle_token settle_tls finish_connector has_key
  connector_of_remote c u = connector_by_token c u (extract_jwt (parse_query u.raw_query))

  abbrev pub connector_by_url : Config → Text → Option (Url Rest) → Logged Connector
  connector_by_url c path none = (err bad_url, [])
  connector_by_url c path (some u) =
      if text_eq u.scheme (codes "file")
      then (connector_of_file path, [])
      else connector_of_remote c u

  -- `config.connector`
  unfoldable pub connector : Config → Text → Logged Connector
  unfolding connector_of_file connector_of_remote
  connector c path = connector_by_url c path (parse path)

  abbrev pub decorate : Option ℤ → Connector → Decorated
  decorate (some (pos (suc n))) (http_connector url token host schema_db key headers) =
      kept_alive (http_connector url token host schema_db key headers)
        (new_keepalive_connector (suc n))
  decorate (some (pos (suc n))) (ws_connector url token) =
      kept_alive (ws_connector url token) (new_keepalive_connector (suc n))
  decorate i c = bare c

  -- `withKeepAlive`
  abbrev pub with_keep_alive : Config → Connector → Decorated
  with_keep_alive c inner = decorate c.keepalive_interval inner

  abbrev pub decorated : Config → Logged Connector → Logged Decorated
  decorated c (ok inner, warned) = (ok (with_keep_alive c inner), warned)
  decorated c (err e, warned) = (err e, warned)

  abbrev pub configured : Text → Config × List OptionError → Logged Decorated
  configured path (c, []) = decorated c (connector c path)
  configured path (c, e ∷ es) = (err (bad_options (e ∷ es)), [])

  -- `NewConnector`
  unfoldable pub new_connector : Text → List ConfigOption → Logged Decorated
  unfolding connector apply_all
  new_connector path options = configured path (apply_all options empty_config)
