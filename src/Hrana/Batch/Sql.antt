-- ===== src/Hrana/Batch/Sql.antt =====
-- The values of SQLite that a server of the Hrana protocol reads from a message.
use libsql_client_go.Base.{ℕ, ◌≡◌, refl, Option, none, some, List, [], ◌∷◌, if◌then◌else◌}
use libsql_client_go.Base.Texts.{Text, codes, text_eq}
use libsql_client_go.Base.Decimal.{ℤ, IsInt64, format_int, parse_int, parse_int-format_int}
use libsql_client_go.Base.Base64.{AllBytes, encode, decode, decode-encode}
use libsql_client_go.Hrana.Value.{Value, plain, Payload, absent, str, float}
use libsql_client_go.Hrana.Batch.{Stmt, NamedArg}

-- The values of SQLite.
pub data SqlValue : Type 0 where
  null : SqlValue
  integer : ℤ → SqlValue
  real : ℕ → SqlValue
  text : Text → SqlValue
  blob : List ℕ → SqlValue

abbrev integer_of : Payload → Option SqlValue
integer_of (str s) = elim (parse_int s) [ none ↦ none | some i ↦ some (integer i) ]
integer_of _ = none

abbrev real_of : Payload → Option SqlValue
real_of (float x) = some (real x)
real_of _ = none

abbrev text_of : Payload → Option SqlValue
text_of (str s) = some (text s)
text_of _ = none

abbrev blob_of : Option Text → Option SqlValue
blob_of none = none
blob_of (some s) = elim (decode s) [ none ↦ none | some b ↦ some (blob b) ]

-- What the protocol takes a value for, by its type; `none` is a value that breaks the protocol.
unfoldable pub sql_value : Value → Option SqlValue
sql_value v =
    if text_eq v.kind (codes "null")
    then some null
    else if text_eq v.kind (codes "integer")
    then integer_of v.value
    else if text_eq v.kind (codes "float")
    then real_of v.value
    else if text_eq v.kind (codes "text")
    then text_of v.value
    else if text_eq v.kind (codes "blob")
    then blob_of v.base64
    else none

-- All the values, if each follows the protocol.
abbrev pub sql_values : List Value → Option (List SqlValue)
sql_values [] = some []
sql_values (v ∷ vs) = elim (sql_value v) [
  | none ↦ none
  | some x ↦ elim (sql_values vs) [ none ↦ none | some xs ↦ some (x ∷ xs) ]
]

abbrev pub named_values : List NamedArg → Option (List (Text × SqlValue))
named_values [] = some []
named_values (a ∷ rest) = elim (sql_value a.value) [
  | none ↦ none
  | some x ↦ elim (named_values rest) [ none ↦ none | some xs ↦ some ((a.name, x) ∷ xs) ]
]

pub sql_values-cons :
    (v : Value) (vs : List Value) {x : SqlValue} {xs : List SqlValue}
    → sql_value v ≡ some x
    → sql_values vs ≡ some xs
    → sql_values (v ∷ vs) ≡ some (x ∷ xs)
sql_values-cons v vs e es = rw (sql_values, e, es) refl

pub named_values-cons :
    (a : NamedArg) (rest : List NamedArg) {x : SqlValue} {xs : List (Text × SqlValue)}
    → sql_value a.value ≡ some x
    → named_values rest ≡ some xs
    → named_values (a ∷ rest) ≡ some ((a.name, x) ∷ xs)
named_values-cons a rest e es = rw (named_values, e, es) refl

pub sql_value-format_int :
    (i : ℤ)
    → IsInt64 i
    → sql_value (plain (codes "integer") (str (format_int i))) ≡ some (integer i)
unfolding sql_value text_eq
sql_value-format_int i h = rw (integer_of, parse_int-format_int i h) refl

pub sql_value-encode :
    (b : List ℕ)
    → AllBytes b
    → sql_value (record { kind = codes "blob"; value = absent; base64 = some (encode b) })
      ≡ some (blob b)
unfolding sql_value text_eq
sql_value-encode b h = rw (blob_of, decode-encode b h) refl

-- What a server reads from a statement.
pub record Reads (sql : Option Text) (positional : List SqlValue) (named : List (Text × SqlValue))
    (s : Stmt) : Type 0 where
  pub text : s.sql ≡ sql
  pub args : sql_values s.args ≡ some positional
  pub named_args : named_values s.named_args ≡ some named
