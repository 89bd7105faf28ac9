-- ===== src/Base/Decimal.antt =====
-- strconv.FormatInt and strconv.ParseInt in base 10, and ParseUint, on 64 bits.
use Prim.Native.Nat.{ℕ, zero, suc, ◌+◌, ◌-◌, ◌*◌, ◌/◌, ◌%◌, ◌^◌, ◌<◌}
use mathlib.Core.Path.{◌≡◌, refl, ap, ◌∙◌}
use mathlib.Core.Logic.{inl, inr}
use mathlib.Core.Bool.{Bool, true, false, ◌&&◌}
use mathlib.Core.Option.{Option, none, some}
use mathlib.Core.List.{[], ◌∷◌, ◌++◌}
use native.Mathlib.Omega.{arith}
use libsql_client_go.Base.Tests.{◌==◌, ltb, leb, if◌then◌else◌, Bool-cases}
use libsql_client_go.Base.Texts.{Text}

-- `negsuc n` is -(n + 1).
pub data ℤ : Type 0 where
  pos : ℕ → ℤ
  negsuc : ℕ → ℤ

abbrev pub i64_limit : ℕ
i64_limit = 2 ^ 63

-- The values of an int64.
abbrev pub IsInt64 : ℤ → Type 0
IsInt64 (pos n) = n < i64_limit
IsInt64 (negsuc n) = n < i64_limit

-- The digits of `n`, with fuel above `n`.
digits : ℕ → ℕ → Text
digits zero n = []
digits (suc f) n =
    let rest = digits f (n / 10) in if ltb n 10 then (48 + n) ∷ [] else rest ++ ((48 + n % 10) ∷ [])

pub format_nat : ℕ → Text
unfolding digits
format_nat n = digits (suc n) n

unfoldable pub format_int : ℤ → Text
unfolding format_nat
format_int (pos n) = format_nat n
format_int (negsuc n) = b'-' ∷ format_nat (suc n)

unfoldable pub parse_digits : ℕ → Text → Option ℕ
parse_digits acc [] = some acc
parse_digits acc (c ∷ s) =
    let rest = parse_digits (acc * 10 + (c - 48)) s in if leb 48 c && leb c 57 then rest else none

-- Digits, at least one, of a number below the limit.
unfoldable pub parse_below : ℕ → Text → Option ℕ
unfolding parse_digits
parse_below limit [] = none
parse_below limit (c ∷ s) = elim (parse_digits 0 (c ∷ s)) [
  | none ↦ none
  | some n ↦ if ltb n limit then some n else none
]

unfoldable pub parse_uint : Text → Option ℕ
parse_uint s = parse_below (2 ^ 64) s

-- The value of a sign and digits.
unfoldable pub signed : Bool → Option ℕ → Option ℤ
signed minus none = none
signed false (some n) = some (pos n)
signed true (some zero) = some (pos 0)
signed true (some (suc n)) = some (negsuc n)

unfoldable pub parse_int : Text → Option ℤ
unfolding signed
parse_int [] = none
parse_int (c ∷ s) =
    if c == b'-'
    then signed true (parse_below (i64_limit + 1) s)
    else if c == b'+'
    then signed false (parse_below i64_limit s)
    else signed false (parse_below i64_limit (c ∷ s))

parse_digits-append :
    (s t : Text) (acc n : ℕ)
    → parse_digits acc s ≡ some n
    → parse_digits acc (s ++ t) ≡ parse_digits n t
unfolding parse_digits
parse_digits-append [] t acc n h = ground arith
parse_digits-append (c ∷ s) t acc n h =
    ground (arith, parse_digits-append s t (acc * 10 + (c - 48)) n)

parse_digits-digits : (f n : ℕ) → n < f → parse_digits 0 (digits f n) ≡ some n
unfolding digits
parse_digits-digits zero n h = elim h [ ]
parse_digits-digits (suc f) n h = elim (Bool-cases (ltb n 10)) [
  | inl one ↦ rw one (unfold parse_digits in ground arith)
  | inr more ↦ rw more (
      parse_digits-append (digits f (n / 10)) ((48 + n % 10) ∷ []) 0 (n / 10)
        (parse_digits-digits f (n / 10) (ground arith))
      ∙ unfold parse_digits in ground arith)
]

abbrev is_nil : Text → Bool
is_nil [] = true
is_nil (c ∷ s) = false

digits-is_nil : (f n : ℕ) → is_nil (digits (suc f) n) ≡ false
unfolding digits
digits-is_nil f n = elim (Bool-cases (ltb n 10)) [
  | inl one ↦ rw one
  | inr more ↦ rw more (last (digits f (n / 10)) (48 + n % 10))
]
  where
    last : (s : Text) (c : ℕ) → is_nil (s ++ (c ∷ [])) ≡ false
    last [] c = refl
    last (d ∷ s) c = refl

parse_below_lem :
    (limit n : ℕ) (s : Text)
    → parse_digits 0 s ≡ some n
    → is_nil s ≡ false
    → n < limit
    → parse_below limit s ≡ some n
unfolding parse_below
parse_below_lem limit n [] h e lt = cc
parse_below_lem limit n (c ∷ s) h e lt = rw (h, parse_below) (ground arith)

-- A text that begins with a digit has no sign.
parse_int_digits :
    (n : ℕ) (s : Text)
    → parse_digits 0 s ≡ some n
    → is_nil s ≡ false
    → n < i64_limit
    → parse_int s ≡ some (pos n)
unfolding parse_int
parse_int_digits n [] h e lt = cc
parse_int_digits n (c ∷ s) h e lt =
    let digit : leb 48 c ≡ true = unfold parse_digits in ground arith in
    ground (arith, parse_below_lem i64_limit n (c ∷ s) h e lt)

pub parse_int-format_int : (i : ℤ) → IsInt64 i → parse_int (format_int i) ≡ some i
unfolding format_int
parse_int-format_int (pos n) h =
    parse_int_digits n (digits (suc n) n) (parse_digits-digits (suc n) n (omega arith))
      (digits-is_nil n n) h
parse_int-format_int (negsuc n) h =
    unfold parse_int in
    ap (signed true) (
      parse_below_lem (i64_limit + 1) (suc n) (digits (suc (suc n)) (suc n))
        (parse_digits-digits (suc (suc n)) (suc n) (omega arith)) (digits-is_nil (suc n) (suc n))
        (omega arith))

-- The value that a 64-bit sum wraps to.
unfoldable pub wrap_int64 : ℤ → ℤ
wrap_int64 (pos n) =
    let m = n % 2 ^ 64 in if ltb m i64_limit then pos m else negsuc (2 ^ 64 - 1 - m)
wrap_int64 (negsuc n) =
    let m = n % 2 ^ 64 in if ltb m i64_limit then negsuc m else pos (2 ^ 64 - 1 - m)

abbrev pub sub_nat : ℕ → ℕ → ℤ
sub_nat a b = if leb b a then pos (a - b) else negsuc (b - a - 1)

infixl 40 ◌+ℤ◌
abbrev pub ◌+ℤ◌ : ℤ → ℤ → ℤ
pos a +ℤ pos b = pos (a + b)
pos a +ℤ negsuc b = sub_nat a (b + 1)
negsuc a +ℤ pos b = sub_nat b (a + 1)
negsuc a +ℤ negsuc b = negsuc (a + b + 1)

-- A + on int64.
abbrev pub add_int64 : ℤ → ℤ → ℤ
add_int64 a b = wrap_int64 (a +ℤ b)

abbrev pub is_positive : ℤ → Bool
is_positive (pos n) = ltb 0 n
is_positive (negsuc n) = false

-- A number below 2^64 in decimal is read back, and has a digit.
pub parse_uint-format_nat : (n : ℕ) → n < 2 ^ 64 → parse_uint (format_nat n) ≡ some n
unfolding parse_uint format_nat
parse_uint-format_nat n h =
    parse_below_lem (2 ^ 64) n (digits (suc n) n) (parse_digits-digits (suc n) n (omega arith))
      (digits-is_nil n n) h
