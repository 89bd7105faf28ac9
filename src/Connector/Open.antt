-- ===== src/Connector/Open.antt =====
-- `Driver.Open`: a connection of a URL alone.
use libsql_client_go.Base.{
  Bool, false, not, ◌&&◌, ◌||◌, Option, none, some, List, [], ◌∷◌, if◌then◌else◌,
}
use libsql_client_go.Base.Texts.{Text, codes, text_eq, is_empty, starts_with}
use libsql_client_go.Base.Results.{Result, ok, err, ◌>>=◌}
use libsql_client_go.Conn.Driver.{connect}
use libsql_client_go.Connector.Parts.{
  Url, Platform, ConnectorError, bad_url, bad_file_url, no_sqlite, sqlite_open_failed,
  unknown_parameter, needs_port, cannot_opt_out, cannot_opt_in, unsupported_scheme, Opening,
  by_http, by_ws, by_driver, contains, extract_jwt, extract_tls,
}
use libsql_client_go.Query.{Values}
use libsql_client_go.Connector.Build.{no_values}

module _ (platform : Platform) where
  open platform use {Rest, parse, parse_query, port, print, drivers, opens}

  unfoldable pub open_with : List Text → Text → Result ConnectorError Opening
  unfolding contains
  open_with [] url = err no_sqlite
  open_with (name ∷ names) url =
      let later = open_with names url in
      if contains drivers name
      then (if opens name url then ok (by_driver name url) else err sqlite_open_failed)
      else later

  unfoldable pub open_file : Text → Result ConnectorError Opening
  unfolding open_with starts_with
  open_file url =
      if starts_with (codes "file://") url && not (starts_with (codes "file:///") url)
      then err bad_file_url
      else open_with (codes "sqlite" ∷ codes "sqlite3" ∷ []) url

  unfoldable pub open_scheme : Bool → Url Rest → Result ConnectorError (Url Rest)
  open_scheme tls u =
      if text_eq u.scheme (codes "libsql")
      then (if tls
          then ok (record u { scheme = codes "https" })
          else if is_empty (port u.host)
          then err needs_port
          else ok (record u { scheme = codes "http" }))
      else ok u

  -- The connection of a URL behind the extraction of its settings.
  unfoldable pub dial : Text → Bool → Url Rest → Result ConnectorError Opening
  dial jwt tls u =
      if (text_eq u.scheme (codes "wss") || text_eq u.scheme (codes "https")) && not tls
      then err cannot_opt_out
      else if (text_eq u.scheme (codes "ws") || text_eq u.scheme (codes "http")) && tls
      then err cannot_opt_in
      else if text_eq u.scheme (codes "wss") || text_eq u.scheme (codes "ws")
      then ok (by_ws (print u) jwt)
      else if text_eq u.scheme (codes "https") || text_eq u.scheme (codes "http")
      then ok (by_http (connect (print u) jwt u.host false [] []))
      else err unsupported_scheme

  abbrev pub open_settled : Text → Bool → Url Rest → Result ConnectorError Opening
  open_settled jwt tls u = do
    resolved ← open_scheme tls (record u { raw_query = [] })
    dial jwt tls resolved

  abbrev pub open_by_tls :
      Text → Url Rest → Result ConnectorError (Bool × Values) → Result ConnectorError Opening
  open_by_tls jwt u (err e) = err e
  open_by_tls jwt u (ok (tls, left)) =
      if not (no_values left) then err unknown_parameter else open_settled jwt tls u

  abbrev pub open_by_token :
      Url Rest → Result ConnectorError (Text × Values) → Result ConnectorError Opening
  open_by_token u (err e) = err e
  open_by_token u (ok (jwt, q)) = open_by_tls jwt u (extract_tls q u.scheme)

  unfoldable pub open_remote : Url Rest → Result ConnectorError Opening
  unfolding extract_jwt extract_tls open_scheme dial
  open_remote u = open_by_token u (extract_jwt (parse_query u.raw_query))

  abbrev pub open_by_url : Text → Option (Url Rest) → Result ConnectorError Opening
  open_by_url url none = err bad_url
  open_by_url url (some u) =
      if text_eq u.scheme (codes "file") then open_file url else open_remote u

  -- `Driver.Open`
  unfoldable pub open_url : Text → Result ConnectorError Opening
  unfolding open_file open_remote
  open_url url = open_by_url url (parse url)
