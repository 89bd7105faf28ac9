-- ===== src/Params/Ranges.antt =====
-- What holds of every argument of a call holds of every parameter of its statements.
use libsql_client_go.Base.{
  ℕ, zero, suc, ◌+◌, ◌-◌, ◌≡◌, refl, ap, Bool, true, false, Option, none, some, List, [], ◌∷◌, ◌++◌,
  ◌&&◌, leb, ltb, length, take, drop, if_both,
}
use libsql_client_go.Base.Texts.{Text, text_eq}
use libsql_client_go.Base.Results.{Result, ok, err, ◌>>=◌, Ensures, >>=-Ensures}
use libsql_client_go.Tokens.{Token}
use libsql_client_go.Values.{GoValue, NamedValue}
use libsql_client_go.Params.{
  Params, ParamsType, named_parameters, positional_parameters, elements, len, same_type, param_type,
  new_params, insert_arg, sort_args, put, add_arg, add_args, convert_sorted, convert_args, slice,
  take_named, too_few_share, positional_share, generate_statement_parameters, share_parameters,
  parse_statement_and_args, is_explain,
}
use libsql_client_go.Params.Errors.{ParamError}
use libsql_client_go.Params.Extract.{extract_parameters, member, ParamsInfo}

module _ {Time : Type 0} (P : GoValue Time → Type 0) where
  abbrev pub AllValues : List (GoValue Time) → Type 0
  AllValues [] = Unit {0}
  AllValues (v ∷ vs) = P v × AllValues vs

  abbrev pub AllNamed : List (Text × GoValue Time) → Type 0
  AllNamed [] = Unit {0}
  AllNamed ((k, v) ∷ m) = P v × AllNamed m

  abbrev pub AllArgs : List (NamedValue Time) → Type 0
  AllArgs [] = Unit {0}
  AllArgs (a ∷ args) = P a.value × AllArgs args

  abbrev pub InParams : Params Time → Type 0
  InParams p = AllValues (elements p.positional) × AllNamed (elements p.named)

  abbrev pub InAll : List (Params Time) → Type 0
  InAll [] = Unit {0}
  InAll (p ∷ ps) = InParams p × InAll ps

  insert_arg-AllArgs :
      (a : NamedValue Time) (args : List (NamedValue Time))
      → P a.value
      → AllArgs args
      → AllArgs (insert_arg a args)
  unfolding insert_arg
  insert_arg-AllArgs a [] h k = (h, tt)
  insert_arg-AllArgs a (b ∷ bs) h k =
      if_both AllArgs (ltb b.ordinal a.ordinal) (k.0, insert_arg-AllArgs a bs h k.1) (h, k)

  sort_args-AllArgs : (args : List (NamedValue Time)) → AllArgs args → AllArgs (sort_args args)
  unfolding sort_args
  sort_args-AllArgs [] h = tt
  sort_args-AllArgs (a ∷ args) h =
      insert_arg-AllArgs a (sort_args args) h.0 (sort_args-AllArgs args h.1)

  append-AllValues :
      (vs ws : List (GoValue Time)) → AllValues vs → AllValues ws → AllValues (vs ++ ws)
  append-AllValues [] ws h k = k
  append-AllValues (v ∷ vs) ws h k = (h.0, append-AllValues vs ws h.1 k)

  put-AllNamed :
      (k : Text) (v : GoValue Time) (m : List (Text × GoValue Time))
      → P v
      → AllNamed m
      → AllNamed (put k v m)
  unfolding put
  put-AllNamed k v [] h a = (h, tt)
  put-AllNamed k v ((j, w) ∷ m) h a =
      if_both AllNamed (text_eq j k) (h, a.1) (a.0, put-AllNamed k v m h a.1)

  add_arg-InParams :
      (t : ParamsType) (a : NamedValue Time) (p : Params Time)
      → P a.value
      → InParams p
      → InParams (add_arg t a p)
  unfolding add_arg
  add_arg-InParams positional_parameters a p h i =
      (append-AllValues (elements p.positional) (a.value ∷ []) i.0 (h, tt), i.1)
  add_arg-InParams named_parameters a p h i =
      (i.0, put-AllNamed a.name a.value (elements p.named) h i.1)

  add_args-InParams :
      (t : ParamsType) (args : List (NamedValue Time)) (p : Params Time)
      → AllArgs args
      → InParams p
      → Ensures InParams (add_args t args p)
  unfolding add_args
  add_args-InParams t [] p h i = i
  add_args-InParams t (a ∷ args) p h i =
      if_both (Ensures InParams) (same_type t (param_type a))
        (add_args-InParams t args (add_arg t a p) h.1 (add_arg-InParams t a p h.0 i)) tt

  new_params-InParams : (t : ParamsType) → InParams (new_params t)
  new_params-InParams named_parameters = (tt, tt)
  new_params-InParams positional_parameters = (tt, tt)

  convert_args-InParams :
      (args : List (NamedValue Time)) → AllArgs args → Ensures InParams (convert_args args)
  unfolding convert_args convert_sorted
  convert_args-InParams args h = sorted (sort_args args) (sort_args-AllArgs args h)
    where
      sorted :
          (args : List (NamedValue Time)) → AllArgs args → Ensures InParams (convert_sorted args)
      sorted [] k = (tt, tt)
      sorted (a ∷ rest) k =
          add_args-InParams (param_type a) (a ∷ rest) (new_params (param_type a)) k
            (new_params-InParams (param_type a))

  take-AllValues : (n : ℕ) (vs : List (GoValue Time)) → AllValues vs → AllValues (take n vs)
  take-AllValues zero vs h = tt
  take-AllValues (suc n) [] h = tt
  take-AllValues (suc n) (v ∷ vs) h = (h.0, take-AllValues n vs h.1)

  drop-AllValues : (n : ℕ) (vs : List (GoValue Time)) → AllValues vs → AllValues (drop n vs)
  drop-AllValues zero vs h = h
  drop-AllValues (suc n) [] h = tt
  drop-AllValues (suc n) (v ∷ vs) h = drop-AllValues n vs h.1

  slice-InParams :
      (vs : List (GoValue Time)) (from to : ℕ)
      → AllValues vs
      → Ensures InParams
          (slice vs from to >>= λ share. ok (record { positional = some share; named = none }))
  unfolding slice
  slice-InParams vs from to h =
      >>=-Ensures AllValues InParams (slice vs from to) _
        (if_both (Ensures AllValues) (leb from to && leb to (length vs))
          (take-AllValues (to - from) (drop from vs) (drop-AllValues from vs h)) tt)
        λ share k. (k, tt)

  take_named-AllNamed :
      (names : List Text) (m : List (Text × GoValue Time))
      → AllNamed m
      → AllNamed (take_named names m)
  unfolding take_named
  take_named-AllNamed names [] h = tt
  take_named-AllNamed names ((k, v) ∷ m) h =
      let rest = take_named-AllNamed names m h.1 in
      if_both AllNamed (member k names) (h.0, rest) rest

  too_few_share-InParams :
      (vs : List (GoValue Time)) (explain : Bool) (offset : ℕ)
      → AllValues vs
      → Ensures InParams (too_few_share vs explain offset)
  unfolding too_few_share
  too_few_share-InParams vs true offset h = (tt, tt)
  too_few_share-InParams vs false offset h = slice-InParams vs offset (length vs) h

  positional_share-InParams :
      (vs : List (GoValue Time)) (explain : Bool) (offset count : ℕ)
      → AllValues vs
      → Ensures InParams (positional_share vs explain offset count)
  unfolding positional_share
  positional_share-InParams vs explain offset count h =
      if_both (Ensures InParams) (ltb (length vs) (offset + count))
        (too_few_share-InParams vs explain offset h) (slice-InParams vs offset (offset + count) h)

  generate-InParams :
      (ts : List Token) (q : Params Time) (offset : ℕ)
      → InParams q
      → Ensures InParams (generate_statement_parameters ts q offset)
  unfolding generate_statement_parameters
  generate-InParams ts q offset h =
      >>=-Ensures (λ (i : ParamsInfo). Unit {0}) InParams (extract_parameters ts) _
        (any (extract_parameters ts)) λ info u. by_named info q.named h.1
    where
      any : (r : Result ParamError ParamsInfo) → Ensures (λ (i : ParamsInfo). Unit {0}) r
      any (ok i) = tt
      any (err e) = tt

      by_named :
          (info : ParamsInfo) (o : Option (List (Text × GoValue Time)))
          → AllNamed (elements o)
          → Ensures InParams (elim o [
            | none ↦
                positional_share
                  (elements q.positional)
                  (is_explain ts)
                  offset
                  info.positional_parameters_count
            | some m ↦
                ok (record { positional = none; named = some (take_named info.named_parameters m) })
          ])
      by_named info none k =
          positional_share-InParams (elements q.positional) (is_explain ts) offset
            info.positional_parameters_count h.0
      by_named info (some m) k = (tt, take_named-AllNamed info.named_parameters m k)

  -- One set of parameters for each statement.
  abbrev pub Shares : List Text → List (Params Time) → Type 0
  Shares stmts ps = (length ps ≡ length stmts) × InAll ps

  share_parameters-Shares :
      (lex : Text → List Token) (stmts : List Text) (q : Params Time) (used : ℕ)
      → InParams q
      → Ensures (Shares stmts) (share_parameters lex stmts q used)
  unfolding share_parameters
  share_parameters-Shares lex [] q used h = (refl, tt)
  share_parameters-Shares lex (t ∷ ts) q used h =
      >>=-Ensures InParams (Shares (t ∷ ts)) (generate_statement_parameters (lex t) q used) _
        (generate-InParams (lex t) q used h)
        λ p k.
          >>=-Ensures (Shares ts) (Shares (t ∷ ts)) (share_parameters lex ts q (used + len p)) _
            (share_parameters-Shares lex ts q (used + len p) h) λ ps ks. (ap suc ks.0, (k, ks.1))

  -- No parameters at all, or one set for each statement.
  abbrev pub Fitting : List Text → List (Params Time) → Type 0
  Fitting stmts [] = Unit {0}
  Fitting stmts (p ∷ ps) = Shares stmts (p ∷ ps)

  Shares-Fitting :
      (stmts : List Text) (ps : List (Params Time)) → Shares stmts ps → Fitting stmts ps
  Shares-Fitting stmts [] h = tt
  Shares-Fitting stmts (p ∷ ps) h = h

  pub parse_statement_and_args-Fitting :
      (lex : Text → List Token) (stmts : List Text) (args : List (NamedValue Time))
      → AllArgs args
      → Ensures (Fitting stmts) (parse_statement_and_args lex stmts args)
  unfolding parse_statement_and_args
  parse_statement_and_args-Fitting lex stmts [] h = tt
  parse_statement_and_args-Fitting lex stmts (a ∷ rest) h =
      >>=-Ensures InParams (Fitting stmts) (convert_args (a ∷ rest)) _
        (convert_args-InParams (a ∷ rest) h)
        λ q k. fitting (share_parameters lex stmts q 0) (share_parameters-Shares lex stmts q 0 k)
    where
      fitting :
          (r : Result ParamError (List (Params Time)))
          → Ensures (Shares stmts) r
          → Ensures (Fitting stmts) r
      fitting (ok ps) k = Shares-Fitting stmts ps k
      fitting (err e) k = tt
