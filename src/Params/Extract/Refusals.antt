-- ===== src/Params/Extract/Refusals.antt =====
-- `extractParameters` fails only at a parameter with an unknown prefix.
use libsql_client_go.Base.{◌≡◌, inl, inr, Option, none, some, List, [], ◌∷◌, arith, Bool-cases}
use libsql_client_go.Base.Texts.{Text}
use libsql_client_go.Base.Results.{err, Result-cases}
use libsql_client_go.Tokens.{Token}
use libsql_client_go.Params.Errors.{ParamError, bad_prefix}
use libsql_client_go.Params.Extract.{
  Found, extract_parameters, find_parameters, add_parameter, remove_param_prefix, positional_index,
  is_bind,
}

remove_param_prefix-err :
    (s : Text) (x : ParamError) → remove_param_prefix s ≡ err x → x ≡ bad_prefix
unfolding remove_param_prefix
remove_param_prefix-err [] x h = cc
remove_param_prefix-err (c ∷ s) x h = ground arith

add_parameter-err :
    (s : Text) (o : Option Text) (f : Found) (x : ParamError)
    → add_parameter s o f ≡ err x
    → x ≡ bad_prefix
unfolding add_parameter
add_parameter-err s none f x h = elim (Result-cases (remove_param_prefix s)) [
  | inl (name, e) ↦ ground (arith, e)
  | inr (y, e) ↦ remove_param_prefix-err s x (ground (arith, e))
]
add_parameter-err s (some []) f x h = cc
add_parameter-err s (some (c ∷ t)) f x h = cc

find_parameters-err :
    (ts : List Token) (f : Found) (x : ParamError) → find_parameters ts f ≡ err x → x ≡ bad_prefix
unfolding find_parameters
find_parameters-err [] f x h = cc
find_parameters-err (t ∷ ts) f x h = elim (Bool-cases (is_bind t.kind)) [
  | inl bind ↦ elim (Result-cases (add_parameter t.text (positional_index t.text) f)) [
    | inl (g, e) ↦ find_parameters-err ts g x (ground (arith, e, bind))
    | inr (y, e) ↦ add_parameter-err t.text (positional_index t.text) f x (ground (arith, e, bind))
  ]
  | inr word ↦ find_parameters-err ts f x (ground (arith, word))
]

pub extract_parameters-err :
    (ts : List Token) (x : ParamError) → extract_parameters ts ≡ err x → x ≡ bad_prefix
unfolding extract_parameters
extract_parameters-err ts x h =
    elim (Result-cases (find_parameters ts (record { names = []; indexes = []; plain = 0 }))) [
      | inl (f, e) ↦ ground (arith, e)
      | inr (y, e) ↦
          find_parameters-err ts (record { names = []; indexes = []; plain = 0 }) x
            (ground (arith, e))
    ]
