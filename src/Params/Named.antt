-- ===== src/Params/Named.antt =====
-- Named arguments: a statement gets the entries that it names, and no other.
use libsql_client_go.Base.{ℕ, ◌≡◌, Option, none, some, List, [], ◌∷◌, arith, if◌then◌else◌}
use libsql_client_go.Base.Texts.{Text, text_eq, text_eq_iff}
use libsql_client_go.Base.Results.{Result, ok, err}
use libsql_client_go.Tokens.{Token}
use libsql_client_go.Values.{GoValue}
use libsql_client_go.Params.{Params, elements, take_named, generate_statement_parameters}
use libsql_client_go.Params.Errors.{ParamError}
use libsql_client_go.Params.Extract.{ParamsInfo, member, extract_parameters}

module _ {Time : Type 0} where
  unfoldable pub lookup : Text → List (Text × GoValue Time) → Option (GoValue Time)
  lookup k [] = none
  lookup k ((j, v) ∷ m) = if text_eq j k then some v else lookup k m

  lookup-take_named :
      (k : Text) (names : List Text) (m : List (Text × GoValue Time))
      → lookup k (take_named names m) ≡ (if member k names then lookup k m else none)
  unfolding lookup take_named
  lookup-take_named k names [] = ground arith
  lookup-take_named k names ((j, v) ∷ m) =
      ground (arith, lookup-take_named k names m, text_eq_iff j k)

  -- The value that a statement's parameters hold under a name.
  abbrev pub named_value : Text → Result ParamError (Params Time) → Option (GoValue Time)
  named_value k (err x) = none
  named_value k (ok p) = lookup k (elements p.named)

  -- A statement of a call with named arguments gets, under each name, the call's argument of that
  -- name if the statement has a parameter so named, and nothing otherwise.
  pub generate_named :
      (ts : List Token) (m : List (Text × GoValue Time)) (offset : ℕ) (info : ParamsInfo) (k : Text)
      → extract_parameters ts ≡ ok info
      → let q : Params Time = record { positional = none; named = some m } in
        named_value k (generate_statement_parameters ts q offset)
        ≡ (if member k info.named_parameters then lookup k m else none)
  unfolding generate_statement_parameters
  generate_named ts m offset info k e = rw e (lookup-take_named k info.named_parameters m)
