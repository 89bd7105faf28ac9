-- ===== src/Ws/Response.antt =====
-- `execResponse`: what the driver reads from a response. The members are those of `result`.
use libsql_client_go.Base.{
  ℕ, zero, suc, ◌+◌, ◌-◌, ◌*◌, ◌/◌, ◌%◌, ◌^◌, Bool, true, false, ◌&&◌, Option, none, some, List, [],
  ◌∷◌, leb, ltb, ◌==◌, if◌then◌else◌,
}
use libsql_client_go.Base.Texts.{Text, codes}
use libsql_client_go.Base.Results.{Result, ok, err, ◌>>=◌}
use libsql_client_go.Base.Decimal.{ℤ, pos, negsuc, i64_limit}
use libsql_client_go.Values.{GoValue}
use libsql_client_go.Hrana.Value.{Value, Payload, absent, str as str_payload, float, other}
use libsql_client_go.Ws.{ReadError, assertion_panic, read_value}
use libsql_client_go.Ws.Dynamic.{
  Dynamic, nil, number, str, Elements, no_element, element, Members, Panic, at, as_object, as_text,
  as_number, as_elements, count, element_at,
}
use libsql_client_go.Ws.Socket.{Fault, panicked, bad_value, or_panic}

-- The magnitude of a float64, rounded towards zero, by its exponent and mantissa.
unfoldable pub truncated : ℕ → ℕ → ℕ
truncated exponent mantissa =
    if ltb exponent 1023
    then 0
    else if ltb exponent 1075
    then (mantissa + 2 ^ 52) / 2 ^ (1075 - exponent)
    else (mantissa + 2 ^ 52) * 2 ^ (exponent - 1075)

abbrev pub with_sign : Bool → ℕ → ℤ
with_sign false n = pos n
with_sign true zero = pos 0
with_sign true (suc n) = negsuc n

-- `int64(f)` of a float64 by its sign, its exponent and its magnitude. Go leaves open what it gives
-- where the value is no int64: `outside` is that.
unfoldable pub int64_of_parts : ℤ → Bool → ℕ → ℕ → ℤ
int64_of_parts outside negative exponent n =
    if ltb exponent 1087 && ltb n i64_limit
    then with_sign negative n
    else if negative && (exponent == 1086) && (n == i64_limit)
    then negsuc (i64_limit - 1)
    else outside

unfoldable pub int64_of_float : ℤ → ℕ → ℤ
unfolding truncated int64_of_parts
int64_of_float outside bits =
    let exponent = bits / 2 ^ 52 % 2 ^ 11 in
    int64_of_parts outside (bits / 2 ^ 63 == 1) exponent (truncated exponent (bits % 2 ^ 52))

-- The digits' value as ParseUint reads them: it stops at the first that leaves 64 bits.
unfoldable pub read_digits : ℕ → Text → Option ℕ
read_digits acc [] = some acc
read_digits acc (c ∷ s) =
    let n = acc * 10 + (c - 48) in
    let rest = read_digits n s in
    if leb 48 c && leb c 57 then (if leb (2 ^ 64) n then some n else rest) else none

unfoldable pub magnitude : Text → Option ℕ
unfolding read_digits
magnitude [] = none
magnitude (c ∷ s) = read_digits 0 (c ∷ s)

-- The int64 next to a value, and 0 for what is no number.
abbrev pub nearest : Bool → Option ℕ → ℤ
nearest minus none = pos 0
nearest false (some n) = pos (if ltb n i64_limit then n else i64_limit - 1)
nearest true (some zero) = pos 0
nearest true (some (suc n)) = negsuc (if ltb n i64_limit then n else i64_limit - 1)

-- The value that ParseInt gives, beside its error.
unfoldable pub parse_int_value : Text → ℤ
unfolding magnitude
parse_int_value [] = pos 0
parse_int_value (c ∷ s) =
    if c == b'-'
    then nearest true (magnitude s)
    else if c == b'+'
    then nearest false (magnitude s)
    else nearest false (magnitude (c ∷ s))

unfoldable pub affected_row_count : ℤ → Members → Result Panic ℤ
unfolding int64_of_float as_number at
affected_row_count outside resp = do
  f ← as_number (at (codes "affected_row_count") resp)
  ok (int64_of_float outside f)

abbrev pub id_of : Dynamic → ℤ
id_of (str id) = parse_int_value id
id_of _ = pos 0

unfoldable pub last_insert_id : Members → ℤ
unfolding parse_int_value at
last_insert_id resp = id_of (at (codes "last_insert_rowid") resp)

-- A column's name, and no text where it is null or missing.
abbrev pub name_of : Dynamic → Result Panic Text
name_of nil = ok []
name_of v = as_text v

unfoldable pub names_of : Elements → Result Panic (List Text)
unfolding as_object at as_text
names_of no_element = ok []
names_of (element col cols) = as_object col >>= λ m.
    name_of (at (codes "name") m) >>= λ v. names_of cols >>= λ vs. ok (v ∷ vs)

unfoldable pub columns : Members → Result Panic (List Text)
unfolding names_of as_elements
columns resp = as_elements (at (codes "cols") resp) >>= names_of

-- `r.resp["rows"].([]interface{})`
unfoldable pub rows_of : Members → Result Panic Elements
unfolding as_elements at
rows_of resp = as_elements (at (codes "rows") resp)

unfoldable pub rows_count : Members → Result Panic ℕ
unfolding rows_of count
rows_count resp = rows_of resp >>= λ rows. ok (count rows)

unfoldable pub row_at : Members → ℕ → Result Panic Elements
unfolding rows_of element_at
row_at resp row_idx = rows_of resp >>= λ rows. element_at rows row_idx >>= as_elements

unfoldable pub row_len : Members → ℕ → Result Panic ℕ
unfolding row_at
row_len resp row_idx = row_at resp row_idx >>= λ row. ok (count row)

-- The map of a value, as far as `value` looks at it.
abbrev pub payload_of : Dynamic → Payload
payload_of nil = absent
payload_of (str s) = str_payload s
payload_of (number x) = float x
payload_of _ = other []

abbrev pub text_or_none : Dynamic → Option Text
text_or_none (str s) = some s
text_or_none _ = none

abbrev pub kind_of : Dynamic → Text
kind_of (str s) = s
kind_of _ = []

unfoldable pub value_of : Members → Value
unfolding at
value_of m = record {
  kind = kind_of (at (codes "type") m);
  value = payload_of (at (codes "value") m);
  base64 = text_or_none (at (codes "base64") m);
}

abbrev pub checked : {Time : Type 0} → Result ReadError (GoValue Time) → Result Fault (GoValue Time)
checked (ok v) = ok v
checked (err assertion_panic) = err (panicked Panic.assertion_panic)
checked (err e) = err bad_value

module _ {Time : Type 0} where
  unfoldable pub value : Members → ℕ → ℕ → Result Fault (GoValue Time)
  unfolding row_at value_of read_value
  value resp row_idx col_idx =
      or_panic (row_at resp row_idx >>= λ row. element_at row col_idx >>= as_object) >>= λ m.
      checked (read_value (value_of m))
