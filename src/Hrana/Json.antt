-- ===== src/Hrana/Json.antt =====
-- JSON as encoding/json hands it to the structs of this package. A number is its literal. The
-- parser of a text is a parameter of the development; what its values become in each struct is
-- modelled.
use libsql_client_go.Base.{◌^◌, Bool, Option, none, some, List, [], ◌∷◌, ltb, if◌then◌else◌}
use libsql_client_go.Base.Texts.{Text, text_eq, to_lower}
use libsql_client_go.Base.Results.{Result, ok, err, ◌>>=◌}
use libsql_client_go.Base.Decimal.{ℤ, pos, negsuc, parse_int}

mutual
  pub data Json : Type 0 where
    null : Json
    boolean : Bool → Json
    number : Text → Json
    str : Text → Json
    arr : Items → Json
    obj : Fields → Json

  pub data Items : Type 0 where
    nil : Items
    cons : Json → Items → Items

  pub data Fields : Type 0 where
    end : Fields
    field : Text → Json → Fields → Fields

-- An error of json.Unmarshal, or the panic of a nil dereference.
pub data DecodeError : Type 0 where
  malformed nil_pointer : DecodeError

-- The last field of a name, if there is one: keys match without regard to case.
unfoldable pub find : Text → Fields → Option Json
find k end = none
find k (field j v rest) = elim (find k rest) [
  | some w ↦ some w
  | none ↦ if text_eq (to_lower j) k then some v else none
]

-- A missing field leaves what null leaves.
abbrev pub find_or_null : Text → Fields → Json
find_or_null k f = elim (find k f) [ none ↦ null | some v ↦ v ]

unfoldable pub as_object : Json → Result DecodeError Fields
as_object (obj f) = ok f
as_object null = ok end
as_object _ = err malformed

unfoldable pub as_items : Json → Result DecodeError Items
as_items (arr xs) = ok xs
as_items null = ok nil
as_items _ = err malformed

-- A string field.
unfoldable pub as_text : Json → Result DecodeError Text
as_text (str s) = ok s
as_text null = ok []
as_text _ = err malformed

-- A *string field.
unfoldable pub as_text_pointer : Json → Result DecodeError (Option Text)
as_text_pointer (str s) = ok (some s)
as_text_pointer null = ok none
as_text_pointer _ = err malformed

abbrev is_int32 : ℤ → Bool
is_int32 (pos n) = ltb n (2 ^ 31)
is_int32 (negsuc n) = ltb n (2 ^ 31)

-- An int32 field: the literal has to be an integer of that range.
unfoldable pub as_int32 : Json → Result DecodeError ℤ
as_int32 (number s) = elim (parse_int s) [
  | none ↦ err malformed
  | some i ↦ if is_int32 i then ok i else err malformed
]
as_int32 null = ok (pos 0)
as_int32 _ = err malformed

unfoldable pub each {ℓ} :
    {A : Type ℓ} → (Json → Result DecodeError A) → Items → Result DecodeError (List A)
each decode nil = ok []
each decode (cons j rest) = do a ← decode j; later ← each decode rest; ok (a ∷ later)

-- A pointer: null is nil.
unfoldable pub as_pointer {ℓ} :
    {A : Type ℓ} → (Json → Result DecodeError A) → Json → Result DecodeError (Option A)
as_pointer decode null = ok none
as_pointer decode j = do a ← decode j; ok (some a)
