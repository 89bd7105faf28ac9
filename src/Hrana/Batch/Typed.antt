-- ===== src/Hrana/Batch/Typed.antt =====
-- The values of a statement as a server of the Hrana protocol reads them.
use libsql_client_go.Base.{◌≡◌, refl, ap, true, false, some, List, [], ◌∷◌, map, if◌then◌else◌}
use libsql_client_go.Base.Texts.{Text, text_eq}
use libsql_client_go.Base.Results.{Ensures, >>=-Ensures}
use libsql_client_go.Base.Decimal.{pos, IsInt64, parse_int, parse_below}
use libsql_client_go.Base.Base64.{AllBytes}
use libsql_client_go.Values.{
  GoValue, nil, int64, int, string, bytes, float64, time, bool, unsupported,
}
use libsql_client_go.Params.{Params, elements}
use libsql_client_go.Params.Ranges.{AllValues, AllNamed, InParams}
use libsql_client_go.Hrana.Value.{Clock, to_value, write_layout}
use libsql_client_go.Hrana.Batch.{
  Stmt, add_args, add_positional_args, add_named_args, convert_all, convert_named,
}
use libsql_client_go.Hrana.Batch.Sql.{
  SqlValue, sql_value, sql_values, named_values, Reads, sql_values-cons, named_values-cons,
  sql_value-format_int, sql_value-encode, null, integer, real, text, blob,
}

module _ (clock : Clock) where
  open clock use {Time, format}

  -- The value of SQLite that a Go value stands for: Booleans are 0 and 1, and times are texts.
  abbrev pub sql_of : GoValue Time → SqlValue
  sql_of nil = null
  sql_of (int64 i) = integer i
  sql_of (int i) = integer i
  sql_of (string s) = text s
  sql_of (bytes b) = blob b
  sql_of (float64 x) = real x
  sql_of (time t) = text (format write_layout t)
  sql_of (bool b) = integer (if b then pos 1 else pos 0)
  sql_of (unsupported s) = null

  -- The values that Go can have: 64-bit integers, and bytes below 256.
  abbrev pub IsGoValue : GoValue Time → Type 0
  IsGoValue (int64 i) = IsInt64 i
  IsGoValue (int i) = IsInt64 i
  IsGoValue (bytes b) = AllBytes b
  IsGoValue v = Unit {0}

  to_value-sql_of :
      (g : GoValue Time)
      → IsGoValue g
      → Ensures (λ v. sql_value v ≡ some (sql_of g)) (to_value clock g)
  unfolding to_value sql_value text_eq
  to_value-sql_of nil h = refl
  to_value-sql_of (int64 i) h = sql_value-format_int i h
  to_value-sql_of (int i) h = sql_value-format_int i h
  to_value-sql_of (string s) h = refl
  to_value-sql_of (bytes b) h = sql_value-encode b h
  to_value-sql_of (float64 x) h = refl
  to_value-sql_of (time t) h = refl
  to_value-sql_of (bool true) h = unfold parse_int parse_below in refl
  to_value-sql_of (bool false) h = unfold parse_int parse_below in refl
  to_value-sql_of (unsupported s) h = tt

  convert_all-sql_of :
      (gs : List (GoValue Time))
      → AllValues IsGoValue gs
      → Ensures (λ vs. sql_values vs ≡ some (map sql_of gs)) (convert_all clock gs)
  unfolding convert_all
  convert_all-sql_of [] h = refl
  convert_all-sql_of (g ∷ gs) h =
      >>=-Ensures _ _ (to_value clock g) _ (to_value-sql_of g h.0) λ v e.
        >>=-Ensures _ _ (convert_all clock gs) _ (convert_all-sql_of gs h.1)
          λ vs es. sql_values-cons v vs e es

  abbrev pub named_sql_of : List (Text × GoValue Time) → List (Text × SqlValue)
  named_sql_of [] = []
  named_sql_of ((k, g) ∷ rest) = (k, sql_of g) ∷ named_sql_of rest

  convert_named-sql_of :
      (gs : List (Text × GoValue Time))
      → AllNamed IsGoValue gs
      → Ensures (λ vs. named_values vs ≡ some (named_sql_of gs)) (convert_named clock gs)
  unfolding convert_named
  convert_named-sql_of [] h = refl
  convert_named-sql_of ((k, g) ∷ gs) h =
      >>=-Ensures _ _ (to_value clock g) _ (to_value-sql_of g h.0) λ v e.
        >>=-Ensures _ _ (convert_named clock gs) _ (convert_named-sql_of gs h.1)
          λ vs es. named_values-cons (record { name = k; value = v }) vs e es

  -- The parameters that a statement gets are values that Go can have.
  abbrev pub IsGoParams : Params Time → Type 0
  IsGoParams p = InParams IsGoValue p

  -- Named parameters go before positional ones; `AddArgs` never sends both.
  abbrev pub sent_positional : Params Time → List SqlValue
  sent_positional p = elim (elements p.named) [
    | [] ↦ map sql_of (elements p.positional)
    | e ∷ es ↦ []
  ]

  add_positional_args-Reads :
      (gs : List (GoValue Time)) (s : Stmt)
      → AllValues IsGoValue gs
      → s.named_args ≡ []
      → Ensures (Reads s.sql (map sql_of gs) []) (add_positional_args clock gs s)
  unfolding add_positional_args
  add_positional_args-Reads gs s h n =
      >>=-Ensures _ _ (convert_all clock gs) _ (convert_all-sql_of gs h)
        λ vs es. record { text = refl; args = es; named_args = ap named_values n }

  add_named_args-Reads :
      (gs : List (Text × GoValue Time)) (s : Stmt)
      → AllNamed IsGoValue gs
      → s.args ≡ []
      → Ensures (Reads s.sql [] (named_sql_of gs)) (add_named_args clock gs s)
  unfolding add_named_args
  add_named_args-Reads gs s h a =
      >>=-Ensures _ _ (convert_named clock gs) _ (convert_named-sql_of gs h)
        λ vs es. record { text = refl; args = ap sql_values a; named_args = es }

  pub add_args-Reads :
      (p : Params Time) (s : Stmt)
      → IsGoParams p
      → s.args ≡ []
      → s.named_args ≡ []
      → Ensures
          (Reads s.sql (sent_positional p) (named_sql_of (elements p.named)))
          (add_args clock p s)
  unfolding add_args
  add_args-Reads p s h a n = by_named (elements p.named) h.1
    where
      by_named :
          (m : List (Text × GoValue Time))
          → AllNamed IsGoValue m
          → Ensures
              (Reads s.sql
                (elim m [ [] ↦ map sql_of (elements p.positional) | e ∷ es ↦ [] ])
                (named_sql_of m))
              (elim m [
                | [] ↦ add_positional_args clock (elements p.positional) s
                | e ∷ es ↦ add_named_args clock (e ∷ es) s
              ])
      by_named [] k = add_positional_args-Reads (elements p.positional) s h.0 n
      by_named (e ∷ es) k = add_named_args-Reads (e ∷ es) s k a
