-- ===== src/Tokenizer/Window.antt =====
-- The ring buffer shows the next tokens of the default channel, in order.
use libsql_client_go.Base.{
  ℕ, suc, ◌+◌, ◌-◌, ◌%◌, ◌<◌, ◌≡◌, refl, sym, ap, ◌∙◌, ◌≢◌, inl, inr, Option, some, List, [], ◌∷◌,
  arith, ltb, if◌then◌else◌, length, get_elem?, get_or, set, drop, length-set, get_elem?-set_self,
  get_elem?-set_ne, get_or-tail, get_or-drop, drop-suc, drop-tail, Bool-cases,
}
use native.Mathlib.Nat.{mod-lt, add-zero, mod-eq_of_lt, mod-eq-sub-mod}
use native.Mathlib.Decide.{dec_lt}
use libsql_client_go.Tokens.{Token, visible}
use libsql_client_go.Tokenizer.{Buffer, next_visible, consume, get}

-- The buffer stands for the tokens `r` still to come: cell by cell, and behind the ring.
pub record Shows (b : Buffer) (r : List Token) : Type 0 where
  pub inside : b.index < length b.tokens
  pub window :
      (k : ℕ)
      → k < length b.tokens
      → get_elem? b.tokens ((b.index + k) % length b.tokens) ≡ some (some (get_or r k b.at_end))
  pub behind : visible b.upcoming ≡ drop (length b.tokens) r

pub next_visible_lem :
    (ts : List Token) (e : Token)
    → ((next_visible ts e).0 ≡ get_or (visible ts) 0 e)
      × (visible (next_visible ts e).1 ≡ drop 1 (visible ts))
unfolding next_visible visible
next_visible_lem [] e = (refl, refl)
next_visible_lem (t ∷ ts) e = ground (arith, next_visible_lem ts e)

wrap : (a n : ℕ) → 0 < n → a < n + n → a % n ≡ (if ltb a n then a else a - n)
wrap a n p h = elim (Bool-cases (ltb a n)) [
  | inl below ↦ rw below (mod-eq_of_lt (ground arith))
  | inr above ↦ rw above (mod-eq-sub-mod (ground arith) ∙ mod-eq_of_lt (ground arith))
]

-- The cell that the window's place `k` has, before and after the index moves on.
slot : (i k n : ℕ) → i < n → k < n → ((i + 1) % n + k) % n ≡ (i + suc k) % n
slot i k n p q = ground (arith, wrap (i + 1) n, wrap ((i + 1) % n + k) n, wrap (i + suc k) n)

slot_last : (i k n : ℕ) → i < n → suc k ≡ n → (i + suc k) % n ≡ i
slot_last i k n p q = ground (arith, wrap (i + suc k) n)

slot_other : (i k n : ℕ) → i < n → suc k < n → (i + 0) % n ≢ (i + suc k) % n
slot_other i k n p q = ground (arith, wrap (i + suc k) n, wrap (i + 0) n)

module _ (cells : List (Option Token)) (i : ℕ) (r : List Token) (e t : Token)
    (inside : i < length cells)
    (window : (k : ℕ)
      → k < length cells
      → get_elem? cells ((i + k) % length cells) ≡ some (some (get_or r k e)))
    (next : t ≡ get_or r (length cells) e) where
  stepped : (k : ℕ) → Option (Option Token)
  stepped k =
      get_elem? (set cells ((i + 0) % length cells) (some t))
        (((i + 1) % length cells + k) % length cells)

  stepped_inner : (k : ℕ) → suc k < length cells → stepped k ≡ some (some (get_or r (suc k) e))
  unfolding stepped
  stepped_inner k h = rw (slot i k (length cells) inside (omega arith)) (
      get_elem?-set_ne cells _ _ (some t) (slot_other i k (length cells) inside h)
      ∙ window (suc k) h)

  stepped_last : (k : ℕ) → suc k ≡ length cells → stepped k ≡ some (some (get_or r (suc k) e))
  unfolding stepped
  stepped_last k h =
      rw
        (
          slot i k (length cells) inside (omega arith),
          slot_last i k (length cells) inside h,
          h,
          ← next,
          add-zero,
          mod-eq_of_lt inside,
        )
        (get_elem?-set_self cells i (some t) inside)

  window_step : (k : ℕ) → k < length cells → stepped k ≡ some (some (get_or (drop 1 r) k e))
  window_step k h = rw (get_or-tail k r e) (elim (dec_lt (suc k) (length cells)) [
    | yes inner ↦ stepped_inner k inner
    | no outer ↦ stepped_last k (omega arith)
  ])

-- One step: the window moves on by one token.
pub consume-Shows : {b : Buffer} {r : List Token} → Shows b r → Shows (consume b) (drop 1 r)
unfolding consume
consume-Shows {b} {r} s = record {
  inside = rw length-set (mod-lt _ (omega (arith, s.inside)));
  window = λ k h. rw length-set (
      unfold stepped in
      window_step b.tokens b.index r b.at_end _ s.inside s.window
        ((next_visible_lem b.upcoming b.at_end).0
          ∙ ap (λ (ts : List Token). get_or ts 0 b.at_end) s.behind
          ∙ get_or-drop (length b.tokens) r b.at_end)
        k (rw length-set at h));
  behind = rw length-set (
      (next_visible_lem b.upcoming b.at_end).1
      ∙ ap (drop 1) s.behind
      ∙ drop-suc (length b.tokens) r
      ∙ sym (drop-tail (length b.tokens) r));
}

-- A read in range is the token of that place; nothing else is read.
pub get-Shows :
    {b : Buffer} {r : List Token} (k : ℕ)
    → Shows b r
    → k < length b.tokens
    → get b k ≡ some (get_or r k b.at_end)
unfolding get
get-Shows k s h = ground (arith, s.window k h)

pub length-consume : (b : Buffer) → length (consume b).tokens ≡ length b.tokens
unfolding consume
length-consume b = length-set b.tokens _ _

pub at_end-consume : (b : Buffer) → (consume b).at_end ≡ b.at_end
unfolding consume
at_end-consume b = refl
