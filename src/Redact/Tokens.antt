-- ===== src/Redact/Tokens.antt =====
-- No token is handed back (libsql/redact.go, `looksLikeJWT`): a description of tokens of its own.
use libsql_client_go.Base.{
  ℕ, ◌≤◌, ◌≡◌, ◌≢◌, refl, sym, ap, ◌∙◌, Bool, true, false, ◌||◌, List, [], ◌∷◌, ◌++◌, leb, length,
  if◌then◌else◌, if_both, false_ne_true, arith,
}
use mathlib.Core.List.{append-nil}
use libsql_client_go.Base.Texts.{Text}
use libsql_client_go.Redact.{
  Urls, split_by, fields_by, keep, ends_field, is_dot, is_token, any_token, looks_like_jwt,
  redact_url, redact_url-looks_like_jwt,
}

-- None of its bytes is one of these.
abbrev pub Without : (ℕ → Bool) → Text → Type 0
Without sep [] = Unit {0}
Without sep (c ∷ s) = (sep c ≡ false) × Without sep s

-- A part of a token: eight bytes or more, none of which ends a field or is a dot.
pub record IsPart (s : Text) : Type 0 where
  pub long : 8 ≤ length s
  pub whole : Without ends_field s
  pub dotless : Without is_dot s

-- What stands before a field, and what stands behind it.
abbrev pub IsBefore : Text → Type 0
IsBefore [] = Unit {0}
IsBefore (c ∷ []) = ends_field c ≡ true
IsBefore (c ∷ d ∷ s) = IsBefore (d ∷ s)

abbrev pub IsBehind : Text → Type 0
IsBehind [] = Unit {0}
IsBehind (c ∷ s) = ends_field c ≡ true

abbrev pub token : Text → Text → Text → Text
token a b c = a ++ (b'.' ∷ (b ++ (b'.' ∷ c)))

abbrev rest_of : List Text → List Text
rest_of [] = []
rest_of (f ∷ fs) = fs

Without-++ : (sep : ℕ → Bool) (s t : Text) → Without sep s → Without sep t → Without sep (s ++ t)
Without-++ sep [] t h k = k
Without-++ sep (c ∷ s) t h k = (h.0, Without-++ sep s t h.1 k)

-- A field in front of a separator, and one at the end.
split_by-field :
    (sep : ℕ → Bool) (s : Text) (c : ℕ) (t : Text)
    → Without sep s
    → sep c ≡ true
    → split_by sep (s ++ (c ∷ t)) ≡ s ∷ split_by sep t
unfolding split_by
split_by-field sep [] c t h e = rw e refl
split_by-field sep (d ∷ s) c t h e = rw (h.0, split_by-field sep s c t h.1 e) refl

split_by-last : (sep : ℕ → Bool) (s : Text) → Without sep s → split_by sep s ≡ s ∷ []
unfolding split_by
split_by-last sep [] h = refl
split_by-last sep (d ∷ s) h = rw (h.0, split_by-last sep s h.1) refl

token-is_token :
    (a b c : Text)
    → IsPart a
    → IsPart b
    → IsPart c
    → is_token (split_by is_dot (token a b c)) ≡ true
unfolding is_token
token-is_token a b c h k l =
    let long_a : leb 8 (length a) ≡ true = ground (arith, h.long) in
    let long_b : leb 8 (length b) ≡ true = ground (arith, k.long) in
    let long_c : leb 8 (length c) ≡ true = ground (arith, l.long) in
    rw
      (
        split_by-field is_dot a b'.' (b ++ (b'.' ∷ c)) h.dotless refl,
        split_by-field is_dot b b'.' c k.dotless refl,
        split_by-last is_dot c l.dotless,
        is_token,
        long_a,
        long_b,
        long_c,
      )
      refl

Without-token : (a b c : Text) → IsPart a → IsPart b → IsPart c → Without ends_field (token a b c)
Without-token a b c h k l =
    Without-++ ends_field a _ h.whole (refl, Without-++ ends_field b _ k.whole (refl, l.whole))

-- The first field of a text that starts with a token.
any_token-first :
    (s t : Text)
    → Without ends_field s
    → IsBehind t
    → is_token (split_by is_dot s) ≡ true
    → any_token (split_by ends_field (s ++ t)) ≡ true
unfolding any_token
any_token-first s [] h k e = rw (append-nil s, split_by-last ends_field s h, any_token, e) refl
any_token-first s (c ∷ t) h k e = rw (split_by-field ends_field s c t h k, any_token, e) refl

any_token-rest : (fs : List Text) → any_token (rest_of fs) ≡ true → any_token fs ≡ true
unfolding any_token
any_token-rest [] e = e
any_token-rest (f ∷ fs) e = rw (any_token, e) (or_true (is_token (split_by is_dot f)))
  where
    or_true : (b : Bool) → (b || true) ≡ true
    or_true true = refl
    or_true false = refl

-- One byte more in front.
any_token-byte :
    (c : ℕ) (fs : List Text)
    → any_token (rest_of fs) ≡ true
    → any_token (
        rest_of (
          if ends_field c
          then [] ∷ fs
          else elim fs [ [] ↦ (c ∷ []) ∷ [] | f ∷ more ↦ (c ∷ f) ∷ more ]))
      ≡ true
any_token-byte c [] e = absurd (false_ne_true (unfold any_token in e))
any_token-byte c (f ∷ fs) e =
    if_both (λ (gs : List Text). any_token (rest_of gs) ≡ true) (ends_field c)
      (any_token-rest (f ∷ fs) e) e

-- A field in front does not hide the fields behind.
any_token-behind :
    (pre s : Text) (c : ℕ)
    → IsBefore (c ∷ pre)
    → any_token (split_by ends_field s) ≡ true
    → any_token (rest_of (split_by ends_field ((c ∷ pre) ++ s))) ≡ true
unfolding split_by
any_token-behind [] s c h e = rw h e
any_token-behind (d ∷ pre) s c h e =
    any_token-byte c (split_by ends_field ((d ∷ pre) ++ s)) (any_token-behind pre s d h e)

any_token-before :
    (pre s : Text)
    → IsBefore pre
    → any_token (split_by ends_field s) ≡ true
    → any_token (split_by ends_field (pre ++ s)) ≡ true
any_token-before [] s h e = e
any_token-before (c ∷ pre) s h e = any_token-rest _ (any_token-behind pre s c h e)

any_token-keep : (fs : List Text) → any_token (keep fs) ≡ any_token fs
unfolding keep any_token is_token split_by
any_token-keep [] = refl
any_token-keep ([] ∷ fs) = any_token-keep fs
any_token-keep ((c ∷ f) ∷ fs) =
    ap (λ b. is_token (split_by is_dot (c ∷ f)) || b) (any_token-keep fs)

looks_like_jwt-token :
    (pre a b c post : Text)
    → IsBefore pre
    → IsPart a
    → IsPart b
    → IsPart c
    → IsBehind post
    → looks_like_jwt (pre ++ (token a b c ++ post)) ≡ true
unfolding looks_like_jwt fields_by
looks_like_jwt-token pre a b c post before h k l behind =
    any_token-keep (split_by ends_field (pre ++ (token a b c ++ post)))
    ∙ any_token-before pre (token a b c ++ post) before (
        any_token-first (token a b c) post (Without-token a b c h k l) behind
          (token-is_token a b c h k l))

module _ (urls : Urls) where
  -- Whatever net/url makes of a URL, what `RedactURL` returns has no token in it: nowhere between two of the
  -- separators = & / ? @, or an end of the text, are there three parts of eight bytes or more, with dots
  -- between them and no separator or dot within them.
  pub redact_url-no_token :
      (raw pre a b c post : Text)
      → IsBefore pre
      → IsPart a
      → IsPart b
      → IsPart c
      → IsBehind post
      → redact_url urls raw ≢ pre ++ (token a b c ++ post)
  redact_url-no_token raw pre a b c post before h k l behind same = false_ne_true (
      sym (redact_url-looks_like_jwt urls raw)
      ∙ ap looks_like_jwt same
      ∙ looks_like_jwt-token pre a b c post before h k l behind)
