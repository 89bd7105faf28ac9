-- ===== src/Redact/Tests.antt =====
-- A URL library whose URLs are their texts.
use libsql_client_go.Base.{
  ℕ, ◌≢◌, ◌++◌, arith, ◌≡◌, refl, true, false, none, some, [], ◌∷◌, map, ◌||◌,
}
use libsql_client_go.Base.Texts.{Text, codes, text_eq}
use libsql_client_go.Query.{Values}
use libsql_client_go.Redact.Tokens.{IsPart, token, redact_url-no_token}
use libsql_client_go.Redact.Keys.{hide, has_any, redact_keys-all}
use libsql_client_go.Redact.{
  Urls, redact_keys, redacted, secret_keys, looks_like_jwt, redact_url, ends_field, is_dot,
}

abbrev toy_urls : Urls
toy_urls = record {
  Url = Text;
  parse = λ raw. some raw;
  username = λ u. none;
  with_user = λ name password u. u;
  query = λ u. [];
  encode = λ q. [];
  with_raw_query = λ q u. u;
  print = λ u. u;
}

-- A token in a parameter that is not known: the URL is withheld.
token_is_seen : looks_like_jwt (codes "libsql://h/?k=aaaaaaaa.bbbbbbbb.cccccccc") ≡ true
unfolding looks_like_jwt
token_is_seen = refl

part :
    (c : ℕ) → ends_field c ≡ false → is_dot c ≡ false → IsPart (c ∷ c ∷ c ∷ c ∷ c ∷ c ∷ c ∷ c ∷ [])
part c e d = record {
  long = omega arith;
  whole = (e, (e, (e, (e, (e, (e, (e, (e, tt))))))));
  dotless = (d, (d, (d, (d, (d, (d, (d, (d, tt))))))));
}

redact_url-no_token_example :
    redact_url toy_urls (codes "libsql://h/?k=aaaaaaaa.bbbbbbbb.cccccccc")
    ≢ codes "libsql://h/?k="
      ++ (token (codes "aaaaaaaa") (codes "bbbbbbbb") (codes "cccccccc") ++ [])
redact_url-no_token_example =
    redact_url-no_token toy_urls (codes "libsql://h/?k=aaaaaaaa.bbbbbbbb.cccccccc")
      (codes "libsql://h/?k=") (codes "aaaaaaaa") (codes "bbbbbbbb") (codes "cccccccc") [] refl
      (part b'a' refl refl) (part b'b' refl refl) (part b'c' refl refl) tt

abbrev with_a_token : Values
with_a_token = (codes "tls", codes "1" ∷ []) ∷ (codes "authToken", codes "abc" ∷ []) ∷ []

the_token_is_hidden :
    map (hide secret_keys) with_a_token
    ≡ (codes "tls", codes "1" ∷ []) ∷ (codes "authToken", redacted ∷ []) ∷ []
unfolding hide text_eq
the_token_is_hidden = refl

redact_keys-all_example :
    redact_keys secret_keys with_a_token false
    ≡ (map (hide secret_keys) with_a_token, has_any secret_keys with_a_token || false)
redact_keys-all_example = redact_keys-all secret_keys with_a_token false
