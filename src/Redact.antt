-- ===== src/Redact.antt =====
-- libsql/redact.go. net/url is a parameter; `url.Values` is a list of keys with their values.
pub mod Keys
pub mod Tokens
mod Tests
use libsql_client_go.Base.{
  ℕ, ◌≡◌, refl, Bool, true, false, not, ◌&&◌, ◌||◌, Option, none, some, List, [], ◌∷◌, leb, ◌==◌,
  if◌then◌else◌, if_split, length,
}
use libsql_client_go.Query.{has_key, set_key}
use libsql_client_go.Base.Texts.{Text, codes, text_eq, is_empty}

-- `username` is there if the URL has a user with a password.
pub record Urls : Type 1 where
  pub Url : Type 0
  pub parse : Text → Option Url
  pub username : Url → Option Text
  pub with_user : Text → Text → Url → Url
  pub query : Url → List (Text × List Text)
  pub encode : List (Text × List Text) → Text
  pub with_raw_query : Text → Url → Url
  pub print : Url → Text

-- strings.Split for a separator of one byte.
unfoldable pub split_by : (ℕ → Bool) → Text → List Text
split_by sep [] = [] ∷ []
split_by sep (c ∷ s) =
    let rest = split_by sep s in
    if sep c
    then [] ∷ rest
    else elim rest [ [] ↦ (c ∷ []) ∷ [] | field ∷ fields ↦ (c ∷ field) ∷ fields ]

-- The fields that are not empty.
unfoldable pub keep : List Text → List Text
keep [] = []
keep (f ∷ fs) = let rest = keep fs in if is_empty f then rest else f ∷ rest

-- strings.FieldsFunc
unfoldable pub fields_by : (ℕ → Bool) → Text → List Text
unfolding split_by keep
fields_by sep s = keep (split_by sep s)

abbrev pub ends_field : ℕ → Bool
ends_field c = c == b'=' || c == b'&' || c == b'/' || c == b'?' || c == b'@'

-- Three parts of at least eight bytes each.
unfoldable pub is_token : List Text → Bool
is_token (a ∷ b ∷ c ∷ []) = leb 8 (length a) && leb 8 (length b) && leb 8 (length c)
is_token _ = false

abbrev pub is_dot : ℕ → Bool
is_dot c = c == b'.'

unfoldable pub any_token : List Text → Bool
unfolding is_token split_by
any_token [] = false
any_token (f ∷ fs) = is_token (split_by is_dot f) || any_token fs

unfoldable pub looks_like_jwt : Text → Bool
unfolding any_token fields_by
looks_like_jwt s = any_token (fields_by ends_field s)

abbrev pub redacted : Text
redacted = codes "REDACTED"

abbrev pub secret_keys : List Text
secret_keys = codes "authToken" ∷ codes "auth_token" ∷ codes "jwt" ∷ []

-- The loop over the keys: the query and `changed`.
unfoldable pub redact_keys :
    List Text → List (Text × List Text) → Bool → List (Text × List Text) × Bool
unfolding set_key has_key
redact_keys [] q changed = (q, changed)
redact_keys (k ∷ ks) q changed =
    let has = has_key k q in
    redact_keys ks (if has then set_key k redacted q else q) (has || changed)

module _ (urls : Urls) where
  open urls use {Url, parse, username, with_user, query, encode, with_raw_query, print}

  abbrev redact_user : Url → Url
  redact_user u = elim (username u) [ none ↦ u | some name ↦ with_user name redacted u ]

  abbrev redact_query : Url → Url
  redact_query u =
      let (q, changed) = redact_keys secret_keys (query u) false in
      if changed then with_raw_query (encode q) u else u

  abbrev withhold : Text → Text
  withhold out =
      if looks_like_jwt out then codes "(database URL withheld: possible credential)" else out

  abbrev shown : Option Url → Text
  shown none = codes "(unparseable database URL)"
  shown (some u) = withhold (print (redact_query (redact_user u)))

  -- `RedactURL`
  unfoldable pub redact_url : Text → Text
  unfolding looks_like_jwt redact_keys
  redact_url [] = []
  redact_url (c ∷ raw) = shown (parse (c ∷ raw))

  unparseable-plain : looks_like_jwt (codes "(unparseable database URL)") ≡ false
  unfolding looks_like_jwt
  unparseable-plain = refl

  withheld-plain : looks_like_jwt (codes "(database URL withheld: possible credential)") ≡ false
  unfolding looks_like_jwt
  withheld-plain = refl

  withhold-plain : (out : Text) → looks_like_jwt (withhold out) ≡ false
  withhold-plain out =
      if_split (λ s. looks_like_jwt s ≡ false) (looks_like_jwt out) (λ e. withheld-plain) (λ e. e)

  shown-plain : (o : Option Url) → looks_like_jwt (shown o) ≡ false
  shown-plain none = unparseable-plain
  shown-plain (some u) = withhold-plain (print (redact_query (redact_user u)))

  -- Whatever net/url makes of a text, `RedactURL` returns no text in which a field between the
  -- separators = & / ? @ has three dotted parts of eight bytes or more each, as a token has.
  pub redact_url-looks_like_jwt : (raw : Text) → looks_like_jwt (redact_url raw) ≡ false
  unfolding redact_url
  redact_url-looks_like_jwt [] = unfold looks_like_jwt in refl
  redact_url-looks_like_jwt (c ∷ raw) = shown-plain (parse (c ∷ raw))
