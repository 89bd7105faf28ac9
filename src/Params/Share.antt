-- ===== src/Params/Share.antt =====
-- How the arguments of a call are shared out to its statements.
use mathlib.Core.Path.{ap₂, subst}
use libsql_client_go.Base.{
  ℕ, ◌+◌, ◌-◌, ◌≤◌, ◌≡◌, refl, sym, ap, ◌∙◌, inl, inr, Bool, true, false, none, some, List, [], ◌∷◌,
  ◌++◌, ◌&&◌, arith, leb, ltb, if_split, length, take, drop, map, if_both, length-drop,
  length-append,
}
use libsql_client_go.Base.Texts.{Text}
use libsql_client_go.Base.Results.{Result, ok, err, ◌>>=◌, Result-cases}
use libsql_client_go.Tokens.{Token}
use mathlib.Core.List.{append-nil, append_assoc}
use libsql_client_go.Values.{GoValue, NamedValue}
use libsql_client_go.Params.{
  Params, elements, len, slice, too_few_share, positional_share, generate_statement_parameters,
  share_parameters, is_explain, ParamsType, param_type, new_params, positional_parameters,
  insert_arg, sort_args, add_arg, add_args, convert_sorted, convert_args, parse_statement_and_args,
}
use libsql_client_go.Params.Errors.{ParamError, bad_prefix}
use libsql_client_go.Params.Extract.{extract_parameters}
use libsql_client_go.Params.Extract.Refusals.{extract_parameters-err}
use libsql_client_go.Base.Slices.{take-add, drop-add, length-take}

module _ {Time : Type 0} (args : List (GoValue Time)) where
  abbrev pub query : Params Time
  query = record { positional = some args; named = none }

  -- A share that begins at `offset`.
  Share : ℕ → Result ParamError (Params Time) → Type 0
  Share offset (err e) = e ≡ bad_prefix
  Share offset (ok p) =
      (offset + len p ≤ length args) × (elements p.positional ≡ take (len p) (drop offset args))

  slice-Share :
      (offset to : ℕ)
      → offset ≤ to
      → to ≤ length args
      → Share offset
          (slice args offset to >>= λ share. ok (record { positional = some share; named = none }))
  unfolding slice Share
  slice-Share offset to h k =
      let size : length (take (to - offset) (drop offset args)) ≡ to - offset =
        length-take (to - offset) (drop offset args) (omega (arith, length-drop offset args)) in
      let inside : (leb offset to && leb to (length args)) ≡ true = ground arith in
      rw inside (omega (arith, size), ap (λ (n : ℕ). take n (drop offset args)) (sym size))

  too_few_share-Share :
      (explain : Bool) (offset : ℕ)
      → offset ≤ length args
      → Share offset (too_few_share args explain offset)
  unfolding too_few_share
  too_few_share-Share true offset h = unfold Share in (omega arith, refl)
  too_few_share-Share false offset h = slice-Share offset (length args) h (omega arith)

  positional_share-Share :
      (explain : Bool) (offset count : ℕ)
      → offset ≤ length args
      → Share offset (positional_share args explain offset count)
  unfolding positional_share
  positional_share-Share explain offset count h =
      if_split (Share offset) (ltb (length args) (offset + count))
        (λ _. too_few_share-Share explain offset h)
        (λ enough. slice-Share offset (offset + count) (omega arith) (ground arith))

  generate-Share :
      (ts : List Token) (offset : ℕ)
      → offset ≤ length args
      → Share offset (generate_statement_parameters ts query offset)
  unfolding generate_statement_parameters
  generate-Share ts offset h = elim (Result-cases (extract_parameters ts)) [
    | inl (info, e) ↦
        rw e (positional_share-Share (is_explain ts) offset info.positional_parameters_count h)
    | inr (x, e) ↦ rw e (unfold Share in extract_parameters-err ts x e)
  ]

  -- The arguments that the statements are given, one statement behind the other.
  unfoldable pub given : List (Params Time) → List (GoValue Time)
  given [] = []
  given (p ∷ ps) = elements p.positional ++ given ps

  unfoldable pub Shared : ℕ → Result ParamError (List (Params Time)) → Type 0
  Shared used (err e) = e ≡ bad_prefix
  Shared used (ok ps) =
      (used + length (given ps) ≤ length args)
      × (given ps ≡ take (length (given ps)) (drop used args))

  length-Share :
      (p : Params Time) (used : ℕ) → Share used (ok p) → length (elements p.positional) ≡ len p
  unfolding Share
  length-Share p used h =
      ap length h.1
      ∙ length-take (len p) (drop used args) (omega (arith, h.0, length-drop used args))

  Shared-cons :
      (p : Params Time) (used : ℕ) (r : Result ParamError (List (Params Time)))
      → Share used (ok p)
      → Shared (used + len p) r
      → Shared used (r >>= λ ps. ok (p ∷ ps))
  unfolding Shared given Share
  Shared-cons p used (err e) h k = k
  Shared-cons p used (ok ps) h k =
      let one = length-Share p used h in
      let both = length-append (elements p.positional) (given ps) in
      (
        omega (arith, one, both, k.0),
        ap₂ (λ (xs ys : List (GoValue Time)). xs ++ ys)
              (h.1 ∙ ap (λ (n : ℕ). take n (drop used args)) (sym one))
              (k.1
                ∙ ap (take (length (given ps))) (sym (drop-add used (len p) args))
                ∙ ap (λ (n : ℕ). take (length (given ps)) (drop n (drop used args))) (sym one))
            ∙ take-add (length (elements p.positional)) (length (given ps)) (drop used args)
            ∙ ap (λ (n : ℕ). take n (drop used args)) (sym both),
      )

  share_parameters-Shared :
      (lex : Text → List Token) (stmts : List Text) (used : ℕ)
      → used ≤ length args
      → Shared used (share_parameters lex stmts query used)
  unfolding share_parameters
  share_parameters-Shared lex [] used h = unfold Shared given in (omega arith, refl)
  share_parameters-Shared lex (stmt ∷ stmts) used h =
      next (generate_statement_parameters (lex stmt) query used) (generate-Share (lex stmt) used h)
        (λ k. share_parameters-Shared lex stmts k)
    where
      next :
          (r : Result ParamError (Params Time))
          → Share used r
          → ((k : ℕ) → k ≤ length args → Shared k (share_parameters lex stmts query k))
          → Shared used
              (r >>= λ p. share_parameters lex stmts query (used + len p) >>= λ ps. ok (p ∷ ps))
      next (err x) h ih = unfold Share Shared in h
      next (ok p) h ih = Shared-cons p used _ h (ih (used + len p) (unfold Share in h.0))

module _ {Time : Type 0} where
  abbrev pub AllUnnamed : List (NamedValue Time) → Type 0
  AllUnnamed [] = Unit {0}
  AllUnnamed (a ∷ rest) = (a.name ≡ []) × AllUnnamed rest

  insert_arg-AllUnnamed :
      (a : NamedValue Time) (rest : List (NamedValue Time))
      → a.name ≡ []
      → AllUnnamed rest
      → AllUnnamed (insert_arg a rest)
  unfolding insert_arg
  insert_arg-AllUnnamed a [] h k = (h, tt)
  insert_arg-AllUnnamed a (b ∷ rest) h k =
      if_both AllUnnamed (ltb b.ordinal a.ordinal) (k.0, insert_arg-AllUnnamed a rest h k.1) (h, k)

  sort_args-AllUnnamed :
      (args : List (NamedValue Time)) → AllUnnamed args → AllUnnamed (sort_args args)
  unfolding sort_args
  sort_args-AllUnnamed [] h = tt
  sort_args-AllUnnamed (a ∷ rest) h =
      insert_arg-AllUnnamed a (sort_args rest) h.0 (sort_args-AllUnnamed rest h.1)

  abbrev pub values_of : List (NamedValue Time) → List (GoValue Time)
  values_of = map (λ a. a.value)

  add_args-positional :
      (args : List (NamedValue Time)) (before : List (GoValue Time))
      → AllUnnamed args
      → add_args positional_parameters args (query before) ≡ ok (query (before ++ values_of args))
  unfolding add_args add_arg
  add_args-positional [] before h = rw append-nil
  add_args-positional (a ∷ rest) before h =
      rw h.0 (add_args-positional rest (before ++ (a.value ∷ [])) h.1 ∙ rw append_assoc)

  param_type-unnamed : (a : NamedValue Time) → a.name ≡ [] → param_type a ≡ positional_parameters
  param_type-unnamed a h = rw h

  pub convert_sorted-positional :
      (args : List (NamedValue Time))
      → AllUnnamed args
      → convert_sorted args ≡ ok (query (values_of args))
  unfolding convert_sorted
  convert_sorted-positional [] h = refl
  convert_sorted-positional (a ∷ rest) h =
      ap (λ (t : ParamsType). add_args t (a ∷ rest) (new_params t)) (param_type-unnamed a h.0)
      ∙ add_args-positional (a ∷ rest) [] h

  -- Arguments with no name are shared out by ordinal, to one statement behind the other: what the
  -- statements get together are the first of the arguments, each once and in order. The only
  -- error is a parameter with an unknown prefix; no slice is out of range.
  pub parse_statement_and_args-Shared :
      (lex : Text → List Token) (stmts : List Text) (args : List (NamedValue Time))
      → AllUnnamed args
      → Shared (values_of (sort_args args)) 0 (parse_statement_and_args lex stmts args)
  unfolding parse_statement_and_args convert_args
  parse_statement_and_args-Shared lex stmts [] h = unfold Shared given in (omega arith, refl)
  parse_statement_and_args-Shared lex stmts (a ∷ rest) h =
      let vs = values_of (sort_args (a ∷ rest)) in
      subst (λ r. Shared vs 0 (r >>= λ p. share_parameters lex stmts p 0))
        (sym (convert_sorted-positional (sort_args (a ∷ rest)) (sort_args-AllUnnamed (a ∷ rest) h)))
        (share_parameters-Shared vs lex stmts 0 (omega arith))
