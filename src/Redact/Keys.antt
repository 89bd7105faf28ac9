-- ===== src/Redact/Keys.antt =====
-- The keys of a query that are redacted (libsql/redact.go): the loop over the keys against one pass over the entries.
use libsql_client_go.Base.{
  ◌≡◌, refl, ap, inl, inr, Bool, true, false, ◌||◌, List, [], ◌∷◌, map, if◌then◌else◌, Bool-cases,
  arith,
}
use libsql_client_go.Base.Texts.{Text, text_eq}
use libsql_client_go.Query.{Values, has_key, set_key}
use libsql_client_go.Redact.{redact_keys, redacted}

unfoldable pub is_one_of : Text → List Text → Bool
is_one_of j [] = false
is_one_of j (k ∷ ks) = text_eq j k || is_one_of j ks

-- An entry of the query with its values hidden, if its key is one of these.
unfoldable pub hide : List Text → Text × List Text → Text × List Text
unfolding is_one_of
hide ks (j, vs) = if is_one_of j ks then (j, redacted ∷ []) else (j, vs)

-- Whether the query has such a key.
unfoldable pub has_any : List Text → Values → Bool
unfolding is_one_of
has_any ks [] = false
has_any ks ((j, vs) ∷ q) = is_one_of j ks || has_any ks q

hide-nothing : (q : Values) → map (hide []) q ≡ q
unfolding hide is_one_of
hide-nothing [] = refl
hide-nothing ((j, vs) ∷ q) = ap (λ r. (j, vs) ∷ r) (hide-nothing q)

-- One key more, which is there or not.
hide-set_key :
    (k : Text) (ks : List Text) (q : Values)
    → map (hide ks) (set_key k redacted q) ≡ map (hide (k ∷ ks)) q
unfolding hide is_one_of set_key
hide-set_key k ks [] = refl
hide-set_key k ks ((j, vs) ∷ q) = elim (Bool-cases (text_eq j k)) [
  | inr e ↦ rw (e, hide-set_key k ks q) refl
  | inl e ↦
      rw (e, hide-set_key k ks q)
        (elim (Bool-cases (is_one_of j ks)) [ inl h ↦ rw h refl | inr h ↦ rw h refl ])
]

hide-absent :
    (k : Text) (ks : List Text) (q : Values)
    → has_key k q ≡ false
    → map (hide ks) q ≡ map (hide (k ∷ ks)) q
unfolding hide is_one_of has_key
hide-absent k ks [] h = refl
hide-absent k ks ((j, vs) ∷ q) h =
    let other : text_eq j k ≡ false = ground arith in
    let rest : has_key k q ≡ false = ground arith in rw (other, hide-absent k ks q rest) refl

has_any-set_key :
    (k v : Text) (ks : List Text) (q : Values) → has_any ks (set_key k v q) ≡ has_any ks q
unfolding has_any set_key
has_any-set_key k v ks [] = refl
has_any-set_key k v ks ((j, vs) ∷ q) = elim (Bool-cases (text_eq j k)) [
  | inl e ↦ rw (e, has_any-set_key k v ks q) refl
  | inr e ↦ rw (e, has_any-set_key k v ks q) refl
]

has_any-cons :
    (k : Text) (ks : List Text) (q : Values) → has_any (k ∷ ks) q ≡ (has_any ks q || has_key k q)
unfolding has_any is_one_of has_key
has_any-cons k ks [] = refl
has_any-cons k ks ((j, vs) ∷ q) = ground (arith, has_any-cons k ks q)

has_any-nothing : (q : Values) → has_any [] q ≡ false
unfolding has_any is_one_of
has_any-nothing [] = refl
has_any-nothing ((j, vs) ∷ q) = has_any-nothing q

or-here : (a b c : Bool) → b ≡ true → (a || true) ≡ ((a || b) || c)
or-here a b c h = ground arith

or-absent : (a b c : Bool) → b ≡ false → (a || c) ≡ ((a || b) || c)
or-absent a b c h = ground arith

-- Redacting these keys hides the values of each entry of the query whose key is one of them, leaves every other entry
-- and the order as they are, and reports a change just when there was such an entry or an earlier change.
pub redact_keys-all :
    (ks : List Text) (q : Values) (changed : Bool)
    → redact_keys ks q changed ≡ (map (hide ks) q, has_any ks q || changed)
unfolding redact_keys
redact_keys-all [] q changed = rw (hide-nothing q, has_any-nothing q) refl
redact_keys-all (k ∷ ks) q changed = elim (Bool-cases (has_key k q)) [
  | inl e ↦
      rw
        (
          e,
          redact_keys-all ks (set_key k redacted q) true,
          hide-set_key k ks q,
          has_any-set_key k redacted ks q,
          has_any-cons k ks q,
        )
        (ap (λ b. (map (hide (k ∷ ks)) q, b)) (or-here (has_any ks q) (has_key k q) changed e))
  | inr e ↦
      rw (e, redact_keys-all ks q changed, has_any-cons k ks q, hide-absent k ks q e)
        (ap (λ b. (map (hide (k ∷ ks)) q, b)) (or-absent (has_any ks q) (has_key k q) changed e))
]
