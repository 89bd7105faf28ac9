-- ===== src/Params.antt =====
-- libsql/internal/http/shared/statement.go: the arguments of a call, and the share of them that
-- each statement takes. A map is an association list with one entry for each key; the order in
-- which Go walks it is the order of the list. A nil slice or map is `none`.
pub mod Errors
pub mod Extract
pub mod Ranges
pub mod Share
pub mod Named
mod Tests
use libsql_client_go.Base.{
  ℕ, zero, suc, ◌+◌, ◌-◌, Bool, true, false, not, ◌&&◌, ◌||◌, Option, none, some, List, [], ◌∷◌,
  ◌++◌, map, ltb, leb, if◌then◌else◌, length, take, drop,
}
use libsql_client_go.Base.Texts.{Text, text_eq, is_empty}
use libsql_client_go.Base.Results.{Result, ok, err, ◌>>=◌}
use libsql_client_go.Values.{GoValue, NamedValue}
use libsql_client_go.Tokens.{Token, TokenKind, explain_, visible}
use Errors.{ParamError, mixed_parameters, slice_out_of_range}
use Extract.{ParamsInfo, member, extract_parameters}

pub data ParamsType : Type 0 where
  named_parameters positional_parameters : ParamsType

pub record Params (Time : Type 0) : Type 0 where
  pub positional : Option (List (GoValue Time))
  pub named : Option (List (Text × GoValue Time))

-- A nil slice or map has no element.
abbrev pub elements {ℓ} : {A : Type ℓ} → Option (List A) → List A
elements none = []
elements (some xs) = xs

abbrev pub same_type : ParamsType → ParamsType → Bool
same_type named_parameters named_parameters = true
same_type positional_parameters positional_parameters = true
same_type _ _ = false

-- `LT(1)` of the statement's tokens.
unfoldable pub is_explain : List Token → Bool
is_explain ts = elim (visible ts) [
  | [] ↦ false
  | t ∷ r ↦ elim t.kind [ explain_ ↦ true | _ ↦ false ]
]

module _ {Time : Type 0} where
  abbrev pub len : Params Time → ℕ
  len p = elim p.named [ some m ↦ length m | none ↦ length (elements p.positional) ]

  abbrev pub type_of : Params Time → ParamsType
  type_of p = elim p.named [ some m ↦ named_parameters | none ↦ positional_parameters ]

  abbrev pub new_params : ParamsType → Params Time
  new_params named_parameters = record { positional = none; named = some [] }
  new_params positional_parameters = record { positional = some []; named = none }

  abbrev pub param_type : NamedValue Time → ParamsType
  param_type arg = if is_empty arg.name then positional_parameters else named_parameters

  -- `sort.Slice` by ordinal. database/sql gives each argument an ordinal of its own, so that the
  -- order is determined.
  unfoldable pub insert_arg : NamedValue Time → List (NamedValue Time) → List (NamedValue Time)
  insert_arg a [] = a ∷ []
  insert_arg a (b ∷ bs) = if ltb b.ordinal a.ordinal then b ∷ insert_arg a bs else a ∷ (b ∷ bs)

  unfoldable pub sort_args : List (NamedValue Time) → List (NamedValue Time)
  unfolding insert_arg
  sort_args [] = []
  sort_args (a ∷ rest) = insert_arg a (sort_args rest)

  -- m[k] = v
  unfoldable pub put : Text → GoValue Time → List (Text × GoValue Time) → List (Text × GoValue Time)
  put k v [] = (k, v) ∷ []
  put k v ((j, w) ∷ m) = if text_eq j k then (k, v) ∷ m else (j, w) ∷ put k v m

  unfoldable pub add_arg : ParamsType → NamedValue Time → Params Time → Params Time
  unfolding put
  add_arg positional_parameters arg p = record p {
    positional = some (elements p.positional ++ (arg.value ∷ []));
  }
  add_arg named_parameters arg p = record p {
    named = some (put arg.name arg.value (elements p.named));
  }

  unfoldable pub add_args :
      ParamsType → List (NamedValue Time) → Params Time → Result ParamError (Params Time)
  unfolding add_arg
  add_args t [] p = ok p
  add_args t (arg ∷ args) p =
      let rest = add_args t args (add_arg t arg p) in
      if same_type t (param_type arg) then rest else err mixed_parameters

  unfoldable pub convert_sorted : List (NamedValue Time) → Result ParamError (Params Time)
  unfolding add_args
  convert_sorted [] = ok (new_params positional_parameters)
  convert_sorted (a ∷ rest) = add_args (param_type a) (a ∷ rest) (new_params (param_type a))

  unfoldable pub convert_args : List (NamedValue Time) → Result ParamError (Params Time)
  unfolding convert_sorted sort_args
  convert_args args = convert_sorted (sort_args args)

  -- `p[from:to]`, or the panic of a slice whose end stands before its start or past the list.
  unfoldable pub slice : List (GoValue Time) → ℕ → ℕ → Result ParamError (List (GoValue Time))
  slice p from to =
      if leb from to && leb to (length p)
      then ok (take (to - from) (drop from p))
      else err slice_out_of_range

  -- The loop over the map: an entry is taken if the statement needs it.
  unfoldable pub take_named : List Text → List (Text × GoValue Time) → List (Text × GoValue Time)
  take_named names [] = []
  take_named names ((k, v) ∷ m) =
      let rest = take_named names m in if member k names then (k, v) ∷ rest else rest

  -- Fewer arguments are left than the statement counts: EXPLAIN goes without, and indexed
  -- parameters mostly need fewer.
  unfoldable pub too_few_share : List (GoValue Time) → Bool → ℕ → Result ParamError (Params Time)
  unfolding slice
  too_few_share args true offset = ok (record { positional = none; named = none })
  too_few_share args false offset = do
    share ← slice args offset (length args)
    ok (record { positional = some share; named = none })

  unfoldable pub positional_share :
      List (GoValue Time) → Bool → ℕ → ℕ → Result ParamError (Params Time)
  unfolding slice too_few_share
  positional_share args explain offset count =
      if ltb (length args) (offset + count) then too_few_share args explain offset else (do
        share ← slice args offset (offset + count)
        ok (record { positional = some share; named = none }))

  unfoldable pub generate_statement_parameters :
      List Token → Params Time → ℕ → Result ParamError (Params Time)
  unfolding positional_share take_named
  generate_statement_parameters ts query offset = do
    info ← extract_parameters ts
    elim query.named [
      | none ↦
          positional_share (elements query.positional) (is_explain ts) offset
            info.positional_parameters_count
      | some m ↦
          ok (record { positional = none; named = some (take_named info.named_parameters m) })
    ]

  -- The loop of `ParseStatementAndArgs`; the number is `totalParametersAlreadyUsed`.
  unfoldable pub share_parameters :
      (Text → List Token) → List Text → Params Time → ℕ → Result ParamError (List (Params Time))
  share_parameters lex [] query used = ok []
  share_parameters lex (stmt ∷ stmts) query used = do
    p ← generate_statement_parameters (lex stmt) query used
    ps ← share_parameters lex stmts query (used + len p)
    ok (p ∷ ps)

  -- `ParseStatementAndArgs` behind the split. With no argument there are no parameters.
  unfoldable pub parse_statement_and_args :
      (Text → List Token)
      → List Text
      → List (NamedValue Time)
      → Result ParamError (List (Params Time))
  unfolding share_parameters
  parse_statement_and_args lex stmts [] = ok []
  parse_statement_and_args lex stmts (a ∷ rest) = do
    parameters ← convert_args (a ∷ rest)
    share_parameters lex stmts parameters 0
