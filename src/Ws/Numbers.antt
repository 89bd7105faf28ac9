-- ===== src/Ws/Numbers.antt =====
-- The last insert id and the count of changes of a response.
use native.Mathlib.Nat.{
  pow-suc, mul_assoc, one-le-pow, mul-le-mul_right, mul-lt-mul_of_pos_right, mul-div_cancel,
}
use libsql_client_go.Base.{
  ℕ, zero, suc, ◌+◌, ◌-◌, ◌*◌, ◌/◌, ◌%◌, ◌^◌, ◌<◌, ◌≤◌, ◌≡◌, ◌⊎◌, refl, ap, sym, ◌∙◌, inl, inr,
  Bool, true, false, ◌&&◌, Option, none, some, [], ◌∷◌, leb, ltb, ◌==◌, if◌then◌else◌, if_both,
  Bool-cases, Option-cases, arith,
}
use libsql_client_go.Base.Texts.{Text, codes}
use libsql_client_go.Base.Decimal.{
  ℤ, pos, i64_limit, IsInt64, parse_int, format_int, parse_int-format_int, parse_below,
  parse_digits, signed,
}
use libsql_client_go.Ws.Dynamic.{Dynamic, str, number, as_number, Members, at}
use libsql_client_go.Ws.Response.{
  read_digits, magnitude, nearest, parse_int_value, last_insert_id, id_of, truncated,
  int64_of_float, int64_of_parts, affected_row_count,
}
use libsql_client_go.Ws.Driver.{result_of_exec}
use libsql_client_go.Base.Results.{ok}

-- A text of digits is read in full where its value fits.
read_digits-parse_digits :
    (s : Text) (acc n : ℕ)
    → parse_digits acc s ≡ some n
    → n < 2 ^ 64
    → (acc ≤ n) × (read_digits acc s ≡ some n)
unfolding parse_digits read_digits
read_digits-parse_digits [] acc n e h = ground arith
read_digits-parse_digits (c ∷ s) acc n e h = elim (Bool-cases (leb 48 c && leb c 57)) [
  | inr other ↦ absurd (ground arith)
  | inl digit ↦
      let (up, same) = read_digits-parse_digits s (acc * 10 + (c - 48)) n (ground arith) h in
      ground arith
]

nearest-IsInt64 : (minus : Bool) (o : Option ℕ) → IsInt64 (nearest minus o)
nearest-IsInt64 minus none = omega arith
nearest-IsInt64 false (some n) = ground arith
nearest-IsInt64 true (some zero) = omega arith
nearest-IsInt64 true (some (suc n)) = ground arith

parse_int_value-IsInt64 : (s : Text) → IsInt64 (parse_int_value s)
unfolding parse_int_value
parse_int_value-IsInt64 [] = omega arith
parse_int_value-IsInt64 (c ∷ s) = if_both IsInt64 (c == b'-') (nearest-IsInt64 true (magnitude s)) (
    if_both IsInt64 (c == b'+') (nearest-IsInt64 false (magnitude s))
      (nearest-IsInt64 false (magnitude (c ∷ s))))

magnitude-parse_below :
    (limit : ℕ) (s : Text) (n : ℕ)
    → limit ≤ 2 ^ 63 + 1
    → parse_below limit s ≡ some n
    → (magnitude s ≡ some n) × (n < limit)
unfolding magnitude parse_below
magnitude-parse_below limit [] n h e = cc
magnitude-parse_below limit (c ∷ s) n h e = elim (Option-cases (parse_digits 0 (c ∷ s))) [
  | inl bad ↦ absurd (ground arith)
  | inr (m, good) ↦
      let found : (m ≡ n) × (n < limit) = ground arith in
      (
        (read_digits-parse_digits (c ∷ s) 0 n (good ∙ ap some found.0) (omega (arith, found))).1,
        found.1,
      )
]

nearest-signed :
    (minus : Bool) (limit n : ℕ) (o : Option ℕ) (i : ℤ)
    → limit ≡ (if minus then i64_limit + 1 else i64_limit)
    → o ≡ some n
    → n < limit
    → signed minus o ≡ some i
    → nearest minus o ≡ i
unfolding signed
nearest-signed minus limit n none i l e h r = cc
nearest-signed false limit n (some m) i l e h r = ground arith
nearest-signed true limit n (some zero) i l e h r = ground arith
nearest-signed true limit n (some (suc m)) i l e h r = ground arith

nearest-parse_below :
    (minus : Bool) (limit : ℕ) (s : Text) (i : ℤ)
    → limit ≡ (if minus then i64_limit + 1 else i64_limit)
    → signed minus (parse_below limit s) ≡ some i
    → nearest minus (magnitude s) ≡ i
unfolding signed
nearest-parse_below minus limit s i l e = elim (Option-cases (parse_below limit s)) [
  | inl bad ↦ absurd (ground arith)
  | inr (n, good) ↦
      let (same, below) = magnitude-parse_below limit s n (ground arith) good in
      nearest-signed minus limit n (magnitude s) i l same below
        (ap (signed minus) (same ∙ sym good) ∙ e)
]

parse_int_value-parse_int : (s : Text) (i : ℤ) → parse_int s ≡ some i → parse_int_value s ≡ i
unfolding parse_int parse_int_value
parse_int_value-parse_int [] i e = cc
parse_int_value-parse_int (c ∷ s) i e = elim (Bool-cases (c == b'-')) [
  | inl minus ↦ rw minus (nearest-parse_below true (i64_limit + 1) s i refl (ground arith))
  | inr unsigned ↦ rw unsigned (elim (Bool-cases (c == b'+')) [
    | inl plus ↦ rw plus (nearest-parse_below false i64_limit s i refl (ground arith))
    | inr digit ↦ rw digit (nearest-parse_below false i64_limit (c ∷ s) i refl (ground arith))
  ])
]

-- The bits of the float64 of a number below 2 ^ 53, which has one of that value.
unfoldable pub IsFloatOf : ℕ → ℕ → Type 0
IsFloatOf n bits =
    ((n ≡ 0) × (bits ≡ 0))
    ⊎ ((k : ℕ) × (k ≤ 52)
        × (2 ^ k ≤ n)
        × (n < 2 ^ (k + 1))
        × (bits ≡ (1023 + k) * 2 ^ 52 + (n * 2 ^ (52 - k) - 2 ^ 52)))

-- 2 ^ k times 2 ^ (52 - k), over the rest `j` of the exponent.
two_pow-add : (k j : ℕ) → 2 ^ k * 2 ^ j ≡ 2 ^ (k + j)
two_pow-add k zero = let same : k + 0 ≡ k = omega arith in rw same (omega arith)
two_pow-add k (suc j) =
    let same : suc (k + j) ≡ k + suc j = omega arith in
    rw (pow-suc 2 j) (
      sym (mul_assoc (2 ^ k) (2 ^ j) 2)
      ∙ ap (λ x. x * 2) (two_pow-add k j)
      ∙ sym (pow-suc 2 (k + j))
      ∙ ap (λ e. 2 ^ e) same)

pow-positive : (j : ℕ) → 0 < 2 ^ j
pow-positive j = one-le-pow j 2 (omega arith)

shift-bounds :
    (k j n : ℕ)
    → k + j ≡ 52
    → 2 ^ k ≤ n
    → n < 2 ^ (k + 1)
    → (2 ^ 52 ≤ n * 2 ^ j) × (n * 2 ^ j < 2 ^ 53)
shift-bounds k j n h lo hi =
    let whole : 2 ^ k * 2 ^ j ≡ 2 ^ 52 = two_pow-add k j ∙ ap (λ e. 2 ^ e) h in
    let sum : k + 1 + j ≡ 53 = omega (arith, h) in
    let next : 2 ^ (k + 1) * 2 ^ j ≡ 2 ^ 53 = two_pow-add (k + 1) j ∙ ap (λ e. 2 ^ e) sum in
    (
      omega (arith, whole, mul-le-mul_right (2 ^ j) lo),
      omega (arith, next, mul-lt-mul_of_pos_right hi (pow-positive j)),
    )

truncated-shift :
    (k j n : ℕ) → k + j ≡ 52 → 2 ^ 52 ≤ n * 2 ^ j → truncated (1023 + k) (n * 2 ^ j - 2 ^ 52) ≡ n
unfolding truncated
truncated-shift k zero n h big =
    let last : k ≡ 52 = omega (arith, h) in rw last (omega (arith, big))
truncated-shift k (suc j) n h big =
    let exponent : 1075 - (1023 + k) ≡ suc j = omega (arith, h) in
    let above : ltb (1023 + k) 1023 ≡ false = ground arith in
    let below : ltb (1023 + k) 1075 ≡ true = ground arith in
    let mantissa : n * 2 ^ suc j - 2 ^ 52 + 2 ^ 52 ≡ n * 2 ^ suc j = omega (arith, big) in
    rw (truncated, above, below, exponent, mantissa) (mul-div_cancel n (pow-positive (suc j)))

parts_of :
    (k y bits : ℕ)
    → k ≤ 52
    → 2 ^ 52 ≤ y
    → y < 2 ^ 53
    → bits ≡ (1023 + k) * 2 ^ 52 + (y - 2 ^ 52)
    → (bits / 2 ^ 52 % 2 ^ 11 ≡ 1023 + k)
      × (bits % 2 ^ 52 ≡ y - 2 ^ 52)
      × ((bits / 2 ^ 63 == 1) ≡ false)
parts_of k y bits h lo hi e = (omega arith, omega arith, ground arith)

parts-exact :
    (outside : ℤ) (k n : ℕ)
    → k ≤ 52
    → n < 2 ^ 53
    → int64_of_parts outside false (1023 + k) n ≡ pos n
unfolding int64_of_parts
parts-exact outside k n h lt = ground arith

int64_of_float-exact :
    (outside : ℤ) (n bits : ℕ) → n < 2 ^ 53 → IsFloatOf n bits → int64_of_float outside bits ≡ pos n
unfolding IsFloatOf int64_of_float
int64_of_float-exact outside n bits lt (inl (z, e)) =
    unfold truncated int64_of_parts in ground arith
int64_of_float-exact outside n bits lt (inr (k, h, lo, hi, e)) =
    let (low, high) = shift-bounds k (52 - k) n (omega arith) lo hi in
    let (exponent, mantissa, sign) = parts_of k (n * 2 ^ (52 - k)) bits h low high e in
    rw (exponent, mantissa, sign, truncated-shift k (52 - k) n (omega arith) low)
      (parts-exact outside k n h lt)

last_insert_id-at :
    (m : Members) (s : Text) (i : ℤ)
    → at (codes "last_insert_rowid") m ≡ str s
    → parse_int s ≡ some i
    → last_insert_id m ≡ i
unfolding last_insert_id
last_insert_id-at m s i e h = ap id_of e ∙ parse_int_value-parse_int s i h

-- A server that writes the last rowid in decimal and the number of changes as a number below
-- 2 ^ 53 has both come back from `ExecContext` as they are.
pub result_of_exec-exact :
    (outside : ℤ) (m : Members) (i : ℤ) (n bits : ℕ)
    → IsInt64 i
    → n < 2 ^ 53
    → IsFloatOf n bits
    → at (codes "last_insert_rowid") m ≡ str (format_int i)
    → at (codes "affected_row_count") m ≡ number bits
    → result_of_exec outside m ≡ ok (record { id = i; changes = pos n })
unfolding affected_row_count as_number
result_of_exec-exact outside m i n bits hi hn f id_at count_at =
    let id_same = last_insert_id-at m (format_int i) i id_at (parse_int-format_int i hi) in
    rw (count_at, int64_of_float-exact outside n bits hn f, id_same) refl

-- Whatever the response says, the last insert id is an int64.
pub last_insert_id-IsInt64 : (m : Members) → IsInt64 (last_insert_id m)
unfolding last_insert_id
last_insert_id-IsInt64 m = id_of-IsInt64 (at (codes "last_insert_rowid") m)
  where
    id_of-IsInt64 : (d : Dynamic) → IsInt64 (id_of d)
    id_of-IsInt64 (str s) = parse_int_value-IsInt64 s
    id_of-IsInt64 _ = omega arith
