-- ===== src/Base/Base64.antt =====
-- base64.StdEncoding without padding: encoding/base64 as the values use it. The decoder skips line
-- breaks and does not check the unused bits of the last character.
use Prim.Native.Nat.{ℕ, ◌+◌, ◌-◌, ◌*◌, ◌/◌, ◌%◌, ◌<◌}
use mathlib.Core.Path.{◌≡◌, refl, ap, ◌∙◌}
use mathlib.Core.Bool.{false, ◌&&◌, ◌||◌}
use mathlib.Core.Option.{Option, none, some}
use mathlib.Core.List.{List, [], ◌∷◌}
use native.Mathlib.Omega.{arith}
use libsql_client_go.Base.Tests.{◌==◌, ltb, leb, if◌then◌else◌}
use libsql_client_go.Base.Texts.{Text}

-- The character of six bits.
unfoldable pub letter : ℕ → ℕ
letter i =
    if ltb i 26
    then 65 + i
    else if ltb i 52
    then 97 + (i - 26)
    else if ltb i 62
    then 48 + (i - 52)
    else if i == 62
    then b'+'
    else b'/'

six_bits : ℕ → Option ℕ
six_bits c =
    if leb 65 c && leb c 90
    then some (c - 65)
    else if leb 97 c && leb c 122
    then some (c - 97 + 26)
    else if leb 48 c && leb c 57
    then some (c - 48 + 52)
    else if c == b'+'
    then some 62
    else if c == b'/'
    then some 63
    else none

-- Three bytes make four characters.
unfoldable pub encode : List ℕ → Text
encode [] = []
encode (a ∷ []) = letter (a / 4) ∷ letter (a % 4 * 16) ∷ []
encode (a ∷ b ∷ []) = letter (a / 4) ∷ letter (a % 4 * 16 + b / 16) ∷ letter (b % 16 * 4) ∷ []
encode (a ∷ b ∷ c ∷ r) =
    letter (a / 4)
    ∷ letter (a % 4 * 16 + b / 16)
    ∷ letter (b % 16 * 4 + c / 64)
    ∷ letter (c % 64)
    ∷ encode r

infixl 5 ◌>>=◌
abbrev ◌>>=◌ : {A B : Type 0} → Option A → (A → Option B) → Option B
none >>= f = none
some a >>= f = f a

-- The characters that are left once line breaks are gone.
decode_groups : Text → Option (List ℕ)
decode_groups [] = some []
decode_groups (w ∷ []) = none
decode_groups (w ∷ x ∷ []) = do p ← six_bits w; q ← six_bits x; some ((p * 4 + q / 16) ∷ [])
decode_groups (w ∷ x ∷ y ∷ []) = do
  p ← six_bits w
  q ← six_bits x
  r ← six_bits y
  some ((p * 4 + q / 16) ∷ (q % 16 * 16 + r / 4) ∷ [])
decode_groups (w ∷ x ∷ y ∷ z ∷ t) =
    let later = decode_groups t in
    six_bits w >>= λ p. six_bits x >>= λ q. six_bits y >>= λ r. six_bits z >>= λ s.
    later >>= λ bs. some ((p * 4 + q / 16) ∷ (q % 16 * 16 + r / 4) ∷ (r % 4 * 64 + s) ∷ bs)

no_breaks : Text → Text
no_breaks [] = []
no_breaks (c ∷ s) = let rest = no_breaks s in if c == b'\n' || c == b'\r' then rest else c ∷ rest

unfoldable pub decode : Text → Option (List ℕ)
unfolding decode_groups no_breaks six_bits
decode s = decode_groups (no_breaks s)

abbrev pub AllBytes : List ℕ → Type 0
AllBytes [] = Unit {0}
AllBytes (b ∷ r) = (b < 256) × AllBytes r

letter-break : (i : ℕ) → (letter i == b'\n' || letter i == b'\r') ≡ false
unfolding letter
letter-break i = ground arith

six_bits-letter : (i : ℕ) → i < 64 → six_bits (letter i) ≡ some i
unfolding letter six_bits
six_bits-letter i h = ground arith

no_breaks-letter : (i : ℕ) (s : Text) → no_breaks (letter i ∷ s) ≡ letter i ∷ no_breaks s
unfolding no_breaks
no_breaks-letter i s = rw letter-break

two_letters :
    (p q : ℕ)
    → p < 64
    → q < 64
    → decode_groups (letter p ∷ letter q ∷ []) ≡ some ((p * 4 + q / 16) ∷ [])
unfolding decode_groups
two_letters p q h k = rw (six_bits-letter p h, six_bits-letter q k)

three_letters :
    (p q r : ℕ)
    → p < 64
    → q < 64
    → r < 64
    → decode_groups (letter p ∷ letter q ∷ letter r ∷ [])
      ≡ some ((p * 4 + q / 16) ∷ (q % 16 * 16 + r / 4) ∷ [])
unfolding decode_groups
three_letters p q r h k l = rw (six_bits-letter p h, six_bits-letter q k, six_bits-letter r l)

four_letters :
    (p q r s : ℕ) (t : Text) {bs : List ℕ}
    → p < 64
    → q < 64
    → r < 64
    → s < 64
    → decode_groups t ≡ some bs
    → decode_groups (letter p ∷ letter q ∷ letter r ∷ letter s ∷ t)
      ≡ some ((p * 4 + q / 16) ∷ (q % 16 * 16 + r / 4) ∷ (r % 4 * 64 + s) ∷ bs)
unfolding decode_groups
four_letters p q r s t h k l m e =
    rw (six_bits-letter p h, six_bits-letter q k, six_bits-letter r l, six_bits-letter s m, e)

decode-encode_groups : (bs : List ℕ) → AllBytes bs → decode_groups (no_breaks (encode bs)) ≡ some bs
unfolding encode
decode-encode_groups [] h = unfold no_breaks decode_groups in refl
decode-encode_groups (a ∷ []) h = simp no_breaks-letter (
    unfold no_breaks in
    two_letters (a / 4) (a % 4 * 16) (omega arith) (omega arith) ∙ ap some (ground arith))
decode-encode_groups (a ∷ b ∷ []) h = simp no_breaks-letter (
    unfold no_breaks in
    three_letters (a / 4) (a % 4 * 16 + b / 16) (b % 16 * 4) (omega arith) (omega arith)
      (omega arith)
    ∙ ap some (ground arith))
decode-encode_groups (a ∷ b ∷ c ∷ r) h = simp no_breaks-letter (
    four_letters (a / 4) (a % 4 * 16 + b / 16) (b % 16 * 4 + c / 64) (c % 64) (no_breaks (encode r))
      (omega arith) (omega arith) (omega arith) (omega arith) (decode-encode_groups r h.1.1.1)
    ∙ ap some (ground arith))

-- Decoding gives back the bytes that were encoded.
pub decode-encode : (bs : List ℕ) → AllBytes bs → decode (encode bs) ≡ some bs
unfolding decode
decode-encode bs h = decode-encode_groups bs h
