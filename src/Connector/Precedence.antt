-- ===== src/Connector/Precedence.antt =====
-- What decides the token, the transport and the URL of a connector.
use mathlib.Core.Path.{subst}
use libsql_client_go.Base.{
  ◌≡◌, refl, sym, ap, ◌∙◌, Bool, true, false, not, ◌&&◌, ◌||◌, Option, none, some, [], ◌∷◌, arith,
}
use libsql_client_go.Base.Texts.{Text, codes, text_eq}
use libsql_client_go.Base.Results.{Result, ok, err, ◌>>=◌, >>=-eq-ok}
use libsql_client_go.Query.{Values, has_key}
use libsql_client_go.Connector.Options.{Config}
use libsql_client_go.Connector.Parts.{
  Url, Platform, ConnectorError, Connector, http_connector, ws_connector, file_connector,
  extract_jwt, extract_tls,
}
use libsql_client_go.Connector.Build.{
  settle_token, settle_tls, text_or_empty, is_websocket, is_http, resolve_scheme, check_scheme,
  apply_proxy, make_connector, finish_connector, settled_connector, checked_connector,
  connector_by_tls, connector_by_token, connector_by_url, connector_of_remote, connector,
}

abbrev pub token_of : Connector → Text
token_of (http_connector url token host schema_db key headers) = token
token_of (ws_connector url token) = token
token_of (file_connector name url) = []

abbrev pub url_of : Connector → Text
url_of (http_connector url token host schema_db key headers) = url
url_of (ws_connector url token) = url
url_of (file_connector name url) = url

-- The schemes of encrypted transports.
abbrev pub is_secure : Text → Bool
is_secure scheme = text_eq scheme (codes "wss") || text_eq scheme (codes "https")

-- An option, or else what the URL says.
abbrev pub chosen {ℓ} : {A : Type ℓ} → Option A → A → A
chosen none a = a
chosen (some b) a = b

settle_token-chosen : (o : Option Text) (t : Text) → text_or_empty (settle_token o t).0 ≡ chosen o t
unfolding settle_token
settle_token-chosen none [] = refl
settle_token-chosen none (c ∷ t) = refl
settle_token-chosen (some s) [] = refl
settle_token-chosen (some s) (c ∷ t) = refl

settle_tls-chosen : (o : Option Bool) (stated b : Bool) → (settle_tls o stated b).0 ≡ chosen o b
unfolding settle_tls
settle_tls-chosen none stated b = refl
settle_tls-chosen (some x) stated b = refl

module _ (platform : Platform) where
  open platform use {Rest, parse, parse_query, port, print}

  resolve_scheme-kept :
      (tls : Bool) (u v : Url Rest)
      → resolve_scheme platform tls u ≡ ok v
      → (v.host ≡ u.host) × (v.raw_query ≡ u.raw_query)
  unfolding resolve_scheme
  resolve_scheme-kept tls u v e = ground arith

  check_scheme-kept :
      (tls : Bool) (u v : Url Rest)
      → check_scheme tls u ≡ ok v
      → (v ≡ u)
        × ((is_secure u.scheme && not tls) ≡ false)
        × (((text_eq u.scheme (codes "ws") || text_eq u.scheme (codes "http")) && tls) ≡ false)
  unfolding check_scheme
  check_scheme-kept tls u v e = ground arith

  make_connector-kept :
      (c : Config) (token : Option Text) (host : Text) (u : Url Rest) (conn : Connector)
      → make_connector platform c token host u ≡ ok conn
      → (token_of conn ≡ text_or_empty token)
        × (url_of conn ≡ print u)
        × ((is_websocket u.scheme || is_http u.scheme) ≡ true)
  unfolding make_connector
  make_connector-kept c token host u conn e = ground arith

  secure-tls :
      (wss https ws http tls : Bool)
      → ((wss || https) && not tls) ≡ false
      → ((ws || http) && tls) ≡ false
      → ((wss || ws) || (https || http)) ≡ true
      → (wss || https) ≡ tls
  secure-tls wss https ws http tls out into known = ground arith

  -- The URL that a connector without a proxy is made of.
  pub Made : Option Text → Bool → Url Rest → Connector → Type 0
  Made token tls u conn =
      (v : Url Rest) × (url_of conn ≡ print v)
      × (v.host ≡ u.host)
      × (v.raw_query ≡ [])
      × (is_secure v.scheme ≡ tls)
      × (token_of conn ≡ text_or_empty token)

  apply_proxy-none :
      (o : Option Text) (u v : Url Rest) → o ≡ none → apply_proxy platform o u ≡ ok v → v ≡ u
  unfolding apply_proxy
  apply_proxy-none none u v e h = ground arith
  apply_proxy-none (some t) u v e h = cc

  settled-Made :
      (c : Config) (token : Option Text) (tls : Bool) (u : Url Rest) (conn : Connector)
      → c.proxy ≡ none
      → settled_connector platform c token tls u ≡ ok conn
      → Made token tls u conn
  unfolding Made
  settled-Made c token tls u conn direct e =
      let bare = record u { raw_query = [] } in
      let (r, resolved, e1) =
        >>=-eq-ok (resolve_scheme platform tls bare) (checked_connector platform c token tls) e in
      let (w, checked, e2) =
        >>=-eq-ok (check_scheme tls r)
          (λ w. apply_proxy platform c.proxy w >>= λ v. make_connector platform c token w.host v)
          e1 in
      let (v, proxied, made) =
        >>=-eq-ok (apply_proxy platform c.proxy w) (λ v. make_connector platform c token w.host v)
          e2 in
      let kept = resolve_scheme-kept tls bare r resolved in
      let same = check_scheme-kept tls r w checked in
      let vr : v ≡ r = apply_proxy-none c.proxy w v direct proxied ∙ same.0 in
      let done = make_connector-kept c token w.host v conn made in
      let known =
        subst (λ (x : Url Rest). (is_websocket x.scheme || is_http x.scheme) ≡ true) vr done.2 in
      (
        r,
        done.1 ∙ ap print vr,
        kept.0,
        kept.1,
        secure-tls (text_eq r.scheme (codes "wss")) (text_eq r.scheme (codes "https"))
            (text_eq r.scheme (codes "ws")) (text_eq r.scheme (codes "http")) tls same.1 same.2
            known,
        done.0,
      )

  finish-Made :
      (c : Config) (token : Option Text) (tls : Bool) (left : Values) (u : Url Rest)
      (conn : Connector)
      → c.proxy ≡ none
      → finish_connector platform c token tls left u ≡ ok conn
      → (left ≡ []) × Made token tls u conn
  unfolding finish_connector
  finish-Made c token tls [] u conn direct e = (refl, settled-Made c token tls u conn direct e)
  finish-Made c token tls (v ∷ left) u conn direct e = cc

  -- A connector by what its configuration and its URL say: `t` is the URL's token and `url_tls`
  -- its tls, or the default of its scheme.
  pub Chosen : Config → Url Rest → Connector → Type 0
  Chosen c u conn =
      (t : Text) × (q : Values) × (url_tls : Bool) × (v : Url Rest) × (extract_jwt
          (parse_query u.raw_query)
        ≡ ok (t, q))
      × (extract_tls q u.scheme ≡ ok (url_tls, []))
      × (token_of conn ≡ chosen c.auth_token t)
      × (url_of conn ≡ print v)
      × (v.host ≡ u.host)
      × (v.raw_query ≡ [])
      × (is_secure v.scheme ≡ chosen c.tls url_tls)

  by_tls-Chosen :
      (c : Config) (t : Text) (q : Values) (u : Url Rest)
      (r : Result ConnectorError (Bool × Values)) (conn : Connector)
      → c.proxy ≡ none
      → extract_jwt (parse_query u.raw_query) ≡ ok (t, q)
      → extract_tls q u.scheme ≡ r
      → (connector_by_tls platform c
          (settle_token c.auth_token t).0
          (has_key (codes "tls") q)
          u
          r).0
        ≡ ok conn
      → Chosen c u conn
  unfolding Chosen Made
  by_tls-Chosen c t q u (err x) conn direct e1 e2 e = cc
  by_tls-Chosen c t q u (ok (url_tls, left)) conn direct e1 e2 e =
      let tls = (settle_tls c.tls (has_key (codes "tls") q) url_tls).0 in
      let (empty, made) = finish-Made c (settle_token c.auth_token t).0 tls left u conn direct e in
      let (v, url, host, query, secure, token) = made in
      (
        t,
        q,
        url_tls,
        v,
        e1,
        e2 ∙ ap (λ (l : Values). ok (url_tls, l)) empty,
        token ∙ settle_token-chosen c.auth_token t,
        url,
        host,
        query,
        secure ∙ settle_tls-chosen c.tls (has_key (codes "tls") q) url_tls,
      )

  by_token-Chosen :
      (c : Config) (u : Url Rest) (r : Result ConnectorError (Text × Values)) (conn : Connector)
      → c.proxy ≡ none
      → extract_jwt (parse_query u.raw_query) ≡ r
      → (connector_by_token platform c u r).0 ≡ ok conn
      → Chosen c u conn
  by_token-Chosen c u (err x) conn direct e1 e = cc
  by_token-Chosen c u (ok (t, q)) conn direct e1 e =
      by_tls-Chosen c t q u (extract_tls q u.scheme) conn direct e1 refl e

  connector-remote :
      (c : Config) (path : Text) (u : Url Rest)
      → parse path ≡ some u
      → text_eq u.scheme (codes "file") ≡ false
      → connector platform c path ≡ connector_of_remote platform c u
  unfolding connector
  connector-remote c path u parsed remote = rw (parsed, connector_by_url) (rw remote refl)

  -- A connector for a URL that is not of scheme file, made without a proxy, has the token of the
  -- option and else the URL's; its URL is the given one with its host, without any query, and
  -- encrypted exactly if the option, or else the URL's tls or the default of its scheme, says so.
  -- The query had no key but the known ones.
  pub connector-Chosen :
      (c : Config) (path : Text) (u : Url Rest) (conn : Connector)
      → c.proxy ≡ none
      → parse path ≡ some u
      → text_eq u.scheme (codes "file") ≡ false
      → (connector platform c path).0 ≡ ok conn
      → Chosen c u conn
  unfolding connector connector_of_remote
  connector-Chosen c path u conn direct parsed remote e =
      by_token-Chosen c u (extract_jwt (parse_query u.raw_query)) conn direct refl
        (sym (ap (λ l. l.0) (connector-remote c path u parsed remote)) ∙ e)
