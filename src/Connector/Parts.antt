-- ===== src/Connector/Parts.antt =====
-- What connectors are made of: URLs, errors, the kinds of connector, and the two settings that are
-- extracted from a query. An error is told by the check that gives it; its text is not modelled.
use libsql_client_go.Base.{
  ℕ, suc, Bool, true, false, not, ◌||◌, Option, List, [], ◌∷◌, ltb, if◌then◌else◌,
}
use libsql_client_go.Base.Texts.{Text, codes, text_eq, is_empty}
use libsql_client_go.Base.Results.{Result, ok, err}
use libsql_client_go.Base.Decimal.{ℤ, pos, negsuc}
use libsql_client_go.Query.{Values, get_value, del_key}
use libsql_client_go.Conn.World.{Conn}
use libsql_client_go.Conn.Driver.{connect}
use libsql_client_go.Keepalive.{KeepaliveConnector}
use libsql_client_go.Connector.Options.{OptionError}

-- url.URL: the fields that the code reads or writes, and the rest.
pub record Url (Rest : Type 0) : Type 0 where
  pub scheme : Text
  pub host : Text
  pub raw_query : Text
  pub rest : Rest

-- net/url: `Parse`, `Query` of a raw query, `Port` of a host and `String`; and database/sql: the
-- registered drivers, and whether `Open` of a driver takes a URL.
pub record Platform : Type 1 where
  pub Rest : Type 0
  pub parse : Text → Option (Url Rest)
  pub parse_query : Text → Values
  pub port : Text → Text
  pub print : Url Rest → Text
  pub drivers : List Text
  pub opens : Text → Text → Bool

pub data ConnectorError : Type 0 where
  bad_url bad_file_url no_sqlite sqlite_open_failed : ConnectorError
  several_tokens bad_tls unknown_parameter needs_port : ConnectorError
  cannot_opt_out cannot_opt_in : ConnectorError
  proxied_websocket bad_proxy unsupported_scheme : ConnectorError
  bad_options : List OptionError → ConnectorError

-- The two warnings that are logged. Neither has a credential in it.
pub data Warning : Type 0 where
  token_conflict : Warning
  tls_conflict : Bool → Warning

-- `httpConnector`, `wsConnector` and `fileConnector`; the driver of the last is its name.
pub data Connector : Type 0 where
  http_connector : Text → Text → Text → Bool → Text → List (Text × Text) → Connector
  ws_connector : Text → Text → Connector
  file_connector : Text → Text → Connector

-- A connector, or one that `keepaliveConnector` decorates.
pub data Decorated : Type 0 where
  bare : Connector → Decorated
  kept_alive : Connector → KeepaliveConnector → Decorated

-- What `Connect` opens: an HTTP connection, `ws.Connect` of a URL and a token, or a driver's `Open`.
pub data Opening : Type 0 where
  by_http : Conn → Opening
  by_ws : Text → Text → Opening
  by_driver : Text → Text → Opening

abbrev pub open_connector : Connector → Opening
open_connector (http_connector url token host schema_db key headers) =
    by_http (connect url token host schema_db key headers)
open_connector (ws_connector url token) = by_ws url token
open_connector (file_connector name url) = by_driver name url

abbrev pub open_decorated : Decorated → Opening
open_decorated (bare c) = open_connector c
open_decorated (kept_alive c k) = open_connector c

-- `Index` and `Contains`.
unfoldable pub index_from : ℕ → List Text → Text → ℤ
index_from i [] v = negsuc 0
index_from i (x ∷ xs) v = let rest = index_from (suc i) xs v in if text_eq v x then pos i else rest

abbrev pub is_natural : ℤ → Bool
is_natural (pos n) = true
is_natural (negsuc n) = false

unfoldable pub contains : List Text → Text → Bool
unfolding index_from
contains xs v = is_natural (index_from 0 xs v)

abbrev pub is_filled : Text → Bool
is_filled t = not (is_empty t)

unfoldable pub count_filled : List Text → ℕ
count_filled [] = 0
count_filled (t ∷ ts) = let n = count_filled ts in if is_filled t then suc n else n

-- `extractJwt`: the token, and the query without the three keys.
unfoldable pub extract_jwt : Values → Result ConnectorError (Text × Values)
unfolding get_value del_key count_filled
extract_jwt q =
    let snake = get_value (codes "auth_token") q in
    let camel = get_value (codes "authToken") q in
    let jwt = get_value (codes "jwt") q in
    let left =
      del_key (codes "jwt") (del_key (codes "authToken") (del_key (codes "auth_token") q)) in
    if ltb 1 (count_filled (snake ∷ camel ∷ jwt ∷ []))
    then err several_tokens
    else if is_filled snake
    then ok (snake, left)
    else if is_filled camel
    then ok (camel, left)
    else ok (jwt, left)

-- `extractTls`, on the scheme of the URL.
unfoldable pub extract_tls : Values → Text → Result ConnectorError (Bool × Values)
unfolding get_value del_key
extract_tls q scheme =
    let tls = get_value (codes "tls") q in
    let left = del_key (codes "tls") q in
    if is_empty tls
    then ok (not (text_eq scheme (codes "http") || text_eq scheme (codes "ws")), left)
    else if text_eq tls (codes "0")
    then ok (false, left)
    else if text_eq tls (codes "1")
    then ok (true, left)
    else err bad_tls
