-- ===== src/Connector/Agreement.antt =====
-- The two ways into the driver agree: sql.Open on a URL, and NewConnector with no option.
use libsql_client_go.Base.{
  ◌≡◌, refl, ◌∙◌, inl, inr, Bool, true, false, not, ◌&&◌, ◌||◌, Option, none, some, List, [], ◌∷◌,
  if◌then◌else◌, Bool-cases,
}
use libsql_client_go.Base.Texts.{Text, codes, text_eq, starts_with}
use libsql_client_go.Base.Results.{Result, ok, err, ◌>>=◌}
use libsql_client_go.Base.Decimal.{ℤ}
use libsql_client_go.Query.{Values, has_key}
use libsql_client_go.Connector.Options.{empty_config, apply_all}
use libsql_client_go.Conn.Driver.{connect}
use libsql_client_go.Connector.Parts.{
  unknown_parameter, by_ws, by_http, ws_connector, http_connector, unsupported_scheme, Url,
  Platform, ConnectorError, Connector, Decorated, Opening, open_connector, open_decorated, contains,
  extract_jwt, extract_tls,
}
use libsql_client_go.Connector.Build.{
  is_websocket, is_http, expected_drivers, Logged, settle_token, settle_tls, text_or_empty,
  no_values, find_driver, connector_of_file, resolve_scheme, check_scheme, apply_proxy,
  make_connector, finish_connector, settled_connector, checked_connector, connector_by_tls,
  connector_by_token, connector_by_url, connector_of_remote, connector, new_connector, decorated,
}
use libsql_client_go.Connector.Open.{
  open_with, open_file, open_scheme, dial, open_settled, open_by_tls, open_by_token, open_by_url,
  open_remote, open_url,
}

-- What a connector opens, by its result.
abbrev pub opened : Result ConnectorError Connector → Result ConnectorError Opening
opened (ok c) = ok (open_connector c)
opened (err e) = err e

abbrev pub opened_decorated : Result ConnectorError Decorated → Result ConnectorError Opening
opened_decorated (ok c) = ok (open_decorated c)
opened_decorated (err e) = err e

opened-bind {ℓ} :
    {A : Type ℓ} (r : Result ConnectorError A) (f : A → Result ConnectorError Connector)
    (g : A → Result ConnectorError Opening)
    → ((a : A) → opened (f a) ≡ g a)
    → opened (r >>= f) ≡ (r >>= g)
opened-bind (ok a) f g h = h a
opened-bind (err e) f g h = refl

opened-if :
    (b : Bool) (x y : Result ConnectorError Connector)
    → opened (if b then x else y) ≡ (if b then opened x else opened y)
opened-if true x y = refl
opened-if false x y = refl

token_of_url : (t : Text) → text_or_empty (settle_token none t).0 ≡ t
unfolding settle_token
token_of_url [] = refl
token_of_url (c ∷ t) = refl

module _ (platform : Platform) where
  open platform use {Rest, parse, parse_query, drivers, opens}

  find_driver-open :
      (names : List Text) (path : Text)
      → opened (find_driver platform names path >>= λ name. ok (Connector.file_connector name path))
        ≡ open_with platform names path
  unfolding find_driver open_with
  find_driver-open [] path = refl
  find_driver-open (name ∷ names) path = elim (Bool-cases (contains drivers name)) [
    | inl e ↦ rw e (elim (Bool-cases (opens name path)) [ inl o ↦ rw o | inr o ↦ rw o ])
    | inr e ↦ rw e (find_driver-open names path)
  ]

  connector_of_file-open :
      (path : Text) → opened (connector_of_file platform path) ≡ open_file platform path
  unfolding connector_of_file open_file
  connector_of_file-open path =
      elim (Bool-cases
        (starts_with (codes "file://") path && not (starts_with (codes "file:///") path))) [
          | inl e ↦ rw e
          | inr e ↦ rw e (find_driver-open (expected_drivers platform) path)
        ]

  resolve_scheme-open :
      (tls : Bool) (u : Url Rest) → resolve_scheme platform tls u ≡ open_scheme platform tls u
  unfolding resolve_scheme open_scheme
  resolve_scheme-open tls u = elim (Bool-cases (text_eq u.scheme (codes "libsql"))) [
    | inl e ↦ rw e
    | inr e ↦ rw e
  ]

  by_scheme :
      (t : Text) (u : Url Rest)
      → opened (
          if is_websocket u.scheme
          then ok (ws_connector (platform.print u) t)
          else if is_http u.scheme
          then ok (http_connector (platform.print u) t u.host false [] [])
          else err unsupported_scheme)
        ≡ (if is_websocket u.scheme
            then ok (by_ws (platform.print u) t)
            else if is_http u.scheme
            then ok (by_http (connect (platform.print u) t u.host false [] []))
            else err unsupported_scheme)
  by_scheme t u = elim (Bool-cases (is_websocket u.scheme)) [
    | inl e ↦ rw e
    | inr e ↦ rw e (opened-if (is_http u.scheme) _ _)
  ]

  checked-dial :
      (t : Text) (tls : Bool) (u : Url Rest)
      → opened (checked_connector platform empty_config (settle_token none t).0 tls u)
        ≡ dial platform t tls u
  unfolding check_scheme apply_proxy make_connector dial
  checked-dial t tls u =
      rw (token_of_url t)
        (elim (Bool-cases
          ((text_eq u.scheme (codes "wss") || text_eq u.scheme (codes "https")) && not tls)) [
            | inl out ↦ rw out
            | inr out ↦
                rw out
                  (elim (Bool-cases
                    ((text_eq u.scheme (codes "ws") || text_eq u.scheme (codes "http")) && tls)) [
                      | inl into ↦ rw into
                      | inr into ↦ rw into (by_scheme t u)
                    ])
          ])

  settled-open :
      (t : Text) (tls : Bool) (u : Url Rest)
      → opened (settled_connector platform empty_config (settle_token none t).0 tls u)
        ≡ open_settled platform t tls u
  settled-open t tls u = rw (resolve_scheme-open tls (record u { raw_query = [] })) (
      opened-bind (open_scheme platform tls (record u { raw_query = [] }))
        (checked_connector platform empty_config (settle_token none t).0 tls) (dial platform t tls)
        (checked-dial t tls))

  finish-open :
      (t : Text) (tls : Bool) (left : Values) (u : Url Rest)
      → opened (finish_connector platform empty_config (settle_token none t).0 tls left u)
        ≡ (if not (no_values left) then err unknown_parameter else open_settled platform t tls u)
  unfolding finish_connector
  finish-open t tls [] u = settled-open t tls u
  finish-open t tls (v ∷ left) u = refl

  by_tls-open :
      (t : Text) (stated : Bool) (u : Url Rest) (r : Result ConnectorError (Bool × Values))
      → opened (connector_by_tls platform empty_config (settle_token none t).0 stated u r).0
        ≡ open_by_tls platform t u r
  unfolding settle_tls
  by_tls-open t stated u (err e) = refl
  by_tls-open t stated u (ok (tls, left)) = finish-open t tls left u

  by_token-open :
      (u : Url Rest) (r : Result ConnectorError (Text × Values))
      → opened (connector_by_token platform empty_config u r).0 ≡ open_by_token platform u r
  by_token-open u (err e) = refl
  by_token-open u (ok (t, q)) = by_tls-open t (has_key (codes "tls") q) u (extract_tls q u.scheme)

  connector_of_remote-open :
      (u : Url Rest)
      → opened (connector_of_remote platform empty_config u).0 ≡ open_remote platform u
  unfolding connector_of_remote open_remote
  connector_of_remote-open u = by_token-open u (extract_jwt (parse_query u.raw_query))

  by_url-open :
      (path : Text) (o : Option (Url Rest))
      → opened (connector_by_url platform empty_config path o).0 ≡ open_by_url platform path o
  by_url-open path none = refl
  by_url-open path (some u) = elim (Bool-cases (text_eq u.scheme (codes "file"))) [
    | inl e ↦ rw e (connector_of_file-open path)
    | inr e ↦ rw e (connector_of_remote-open u)
  ]

  opened-decorated :
      (i : Option ℤ) (l : Logged Connector)
      → opened_decorated (decorated platform empty_config l).0 ≡ opened l.0
  opened-decorated i (ok c, warned) = refl
  opened-decorated i (err e, warned) = refl

  -- `Driver.Open` of a URL, and `NewConnector` of the URL with no option followed by `Connect`, open
  -- the same connection or fail at the same check.
  pub new_connector-open_url :
      (path : Text) → opened_decorated (new_connector platform path []).0 ≡ open_url platform path
  unfolding new_connector apply_all connector open_url
  new_connector-open_url path =
      opened-decorated none (connector platform empty_config path) ∙ by_url-open path (parse path)
