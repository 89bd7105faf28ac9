-- ===== src/Connector/InForce.antt =====
-- What the options of `NewConnector` come to.
use mathlib.Core.Path.{subst}
use libsql_client_go.Base.{
  ℕ, zero, suc, ◌≡◌, refl, ap, sym, ◌∙◌, Option, false, none, some, List, [], ◌∷◌, get_elem?, ◌≢◌,
  arith,
}
use libsql_client_go.Base.Texts.{is_empty}
use libsql_client_go.Base.Decimal.{ℤ}
use libsql_client_go.Base.Results.{Result, ok, err}
use libsql_client_go.Connector.Options.{
  Config, ConfigOption, OptionError, with_auth_token, with_tls, with_proxy, with_schema_db,
  with_remote_encryption_key, with_request_headers, with_keep_alive, apply, apply_all, kept,
  errors_of, no_headers,
}

-- The configuration has the option's setting, or an interval, which may be set again.
abbrev pub InForce : ConfigOption → Config → Type 0
InForce (with_auth_token t) c = (c.auth_token ≡ some t) × (is_empty t ≡ false)
InForce (with_tls b) c = c.tls ≡ some b
InForce (with_proxy t) c = (c.proxy ≡ some t) × (is_empty t ≡ false)
InForce (with_schema_db b) c = c.schema_db ≡ some b
InForce (with_remote_encryption_key t) c = (c.remote_encryption_key ≡ some t) × (is_empty t ≡ false)
InForce (with_request_headers hs) c = (c.request_headers ≡ some hs) × (no_headers hs ≡ false)
InForce (with_keep_alive i) c = c.keepalive_interval ≢ none

apply-InForce : (o : ConfigOption) (c d : Config) → apply o c ≡ ok d → InForce o d
unfolding apply
apply-InForce (with_tls b) c d e = ground arith
apply-InForce _ c d e = ground arith

-- A further option leaves the settings that are there.
apply-keeps : (p o : ConfigOption) (c d : Config) → apply p c ≡ ok d → InForce o c → InForce o d
unfolding apply
apply-keeps (with_tls b) (with_tls b') c d e h = ground arith
apply-keeps _ _ c d e h = ground arith

-- If no option fails, the first is applied and so are the others.
apply_all-cons :
    (o : ConfigOption) (os : List ConfigOption) (c d : Config)
    → apply_all (o ∷ os) c ≡ (d, [])
    → (m : Config) × (apply o c ≡ ok m) × (apply_all os m ≡ (d, []))
apply_all-cons o os c d e = go (apply o c) refl (unfold apply_all in e)
  where
    go :
        (r : Result OptionError Config)
        → apply o c ≡ r
        → ◌≡◌ {A = Config × List OptionError}
            ((apply_all os (kept c r)).0, errors_of r (apply_all os (kept c r)).1)
            (d, [])
        → (m : Config) × (apply o c ≡ ok m) × (apply_all os m ≡ (d, []))
    go (ok m) h e' = (m, h, e')
    go (err x) h e' = cc

apply_all-keeps :
    (o : ConfigOption) (os : List ConfigOption) (c d : Config)
    → apply_all os c ≡ (d, [])
    → InForce o c
    → InForce o d
unfolding apply_all
apply_all-keeps o [] c d e h = subst (InForce o) (ap (λ p. p.0) e) h
apply_all-keeps o (p ∷ os) c d e h =
    let (m, first, rest) = apply_all-cons p os c d e in
    apply_all-keeps o os m d rest (apply-keeps p o c m first h)

-- The interval of the last keepalive option, or the one before.
abbrev pub last_interval : Option ℤ → List ConfigOption → Option ℤ
last_interval so_far [] = so_far
last_interval so_far (with_keep_alive i ∷ os) = last_interval (some i) os
last_interval so_far (o ∷ os) = last_interval so_far os

apply-interval :
    (o : ConfigOption) (c d : Config)
    → apply o c ≡ ok d
    → d.keepalive_interval ≡ last_interval c.keepalive_interval (o ∷ [])
unfolding apply
apply-interval (with_tls b) c d e = ground arith
apply-interval (with_keep_alive i) c d e = ground arith
apply-interval (with_auth_token t) c d e = ground arith
apply-interval (with_proxy t) c d e = ground arith
apply-interval (with_schema_db b) c d e = ground arith
apply-interval (with_remote_encryption_key t) c d e = ground arith
apply-interval (with_request_headers hs) c d e = ground arith

last_interval-cons :
    (so_far : Option ℤ) (o : ConfigOption) (os : List ConfigOption)
    → last_interval (last_interval so_far (o ∷ [])) os ≡ last_interval so_far (o ∷ os)
last_interval-cons so_far (with_tls b) os = refl
last_interval-cons so_far (with_keep_alive i) os = refl
last_interval-cons so_far (with_auth_token t) os = refl
last_interval-cons so_far (with_proxy t) os = refl
last_interval-cons so_far (with_schema_db b) os = refl
last_interval-cons so_far (with_remote_encryption_key t) os = refl
last_interval-cons so_far (with_request_headers hs) os = refl

apply_all-interval :
    (os : List ConfigOption) (c d : Config)
    → apply_all os c ≡ (d, [])
    → d.keepalive_interval ≡ last_interval c.keepalive_interval os
unfolding apply_all
apply_all-interval [] c d e = ap (λ p. p.0.keepalive_interval) (sym e)
apply_all-interval (o ∷ os) c d e =
    let (m, first, rest) = apply_all-cons o os c d e in
    apply_all-interval os m d rest
    ∙ ap (λ i. last_interval i os) (apply-interval o c m first)
    ∙ last_interval-cons c.keepalive_interval o os

setting-InForce :
    (os : List ConfigOption) (c d : Config) (k : ℕ) (o : ConfigOption)
    → apply_all os c ≡ (d, [])
    → get_elem? os k ≡ some o
    → InForce o d
setting-InForce [] c d k o e at = cc
setting-InForce (p ∷ os) c d zero o e at =
    let (m, first, rest) = apply_all-cons p os c d e in
    let same : p ≡ o = cc in
    apply_all-keeps o os m d rest (subst (λ q. InForce q m) same (apply-InForce p c m first))
setting-InForce (p ∷ os) c d (suc k) o e at =
    let (m, first, rest) = apply_all-cons p os c d e in setting-InForce os m d k o rest at

-- Where no option fails, every option that `NewConnector` was given is in force: its setting is the
-- configuration's, and no text or map is empty. A keepalive option may be given more than once: the interval
-- is that of the last one, and of the configuration before if there is none.
pub apply_all-InForce :
    (os : List ConfigOption) (c d : Config) (k : ℕ) (o : ConfigOption)
    → apply_all os c ≡ (d, [])
    → get_elem? os k ≡ some o
    → InForce o d × (d.keepalive_interval ≡ last_interval c.keepalive_interval os)
apply_all-InForce os c d k o e at = (setting-InForce os c d k o e at, apply_all-interval os c d e)
