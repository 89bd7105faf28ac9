-- ===== src/Conn/Ordinals.antt =====
-- The arguments of a prepared statement: `convertToNamed`, and the share of a statement that takes them all.
use libsql_client_go.Base.{
  ℕ, ◌+◌, ◌≡◌, refl, ap, ◌∙◌, true, false, List, [], ◌∷◌, ltb, ◌-◌, ◌&&◌, leb, length, take-length,
  arith,
}
use libsql_client_go.Base.Texts.{Text}
use libsql_client_go.Base.Results.{ok}
use libsql_client_go.Values.{GoValue}
use libsql_client_go.Params.{
  Params, insert_arg, sort_args, convert_args, generate_statement_parameters, share_parameters,
  positional_share, slice, parse_statement_and_args,
}
use libsql_client_go.Params.Share.{AllUnnamed, values_of, query, convert_sorted-positional}
use libsql_client_go.Params.Extract.{ParamsInfo, extract_parameters}
use libsql_client_go.Conn.World.{Env}
use libsql_client_go.Conn.Driver.{convert_from, convert_to_named}

module _ (env : Env) where
  open env use {clock, tokens, end_token, get_text}
  open clock use {Time}

  insert_arg-convert_from :
      (i : ℕ) (v : GoValue Time) (vs : List (GoValue Time))
      → insert_arg (record { name = []; ordinal = i; value = v }) (convert_from env (i + 1) vs)
        ≡ convert_from env i (v ∷ vs)
  unfolding insert_arg convert_from
  insert_arg-convert_from i v [] = refl
  insert_arg-convert_from i v (w ∷ vs) =
      let after : ltb (i + 1) i ≡ false = ground arith in rw after refl

  sort_args-convert_from :
      (i : ℕ) (vs : List (GoValue Time)) → sort_args (convert_from env i vs) ≡ convert_from env i vs
  unfolding sort_args convert_from
  sort_args-convert_from i [] = refl
  sort_args-convert_from i (v ∷ vs) =
      rw (sort_args-convert_from (i + 1) vs) (insert_arg-convert_from i v vs)

  convert_from-AllUnnamed : (i : ℕ) (vs : List (GoValue Time)) → AllUnnamed (convert_from env i vs)
  unfolding convert_from
  convert_from-AllUnnamed i [] = tt
  convert_from-AllUnnamed i (v ∷ vs) = (refl, convert_from-AllUnnamed (i + 1) vs)

  values_of-convert_from :
      (i : ℕ) (vs : List (GoValue Time)) → values_of (convert_from env i vs) ≡ vs
  unfolding convert_from
  values_of-convert_from i [] = refl
  values_of-convert_from i (v ∷ vs) = ap (λ ws. v ∷ ws) (values_of-convert_from (i + 1) vs)

  convert_args-convert_to_named :
      (vs : List (GoValue Time)) → convert_args (convert_to_named env vs) ≡ ok (query vs)
  unfolding convert_args
  convert_args-convert_to_named vs = rw (sort_args-convert_from 0 vs) (
      convert_sorted-positional (convert_from env 0 vs) (convert_from-AllUnnamed 0 vs)
      ∙ ap (λ ws. ok (query ws)) (values_of-convert_from 0 vs))

  slice-all : (vs : List (GoValue Time)) (m : ℕ) → m ≡ length vs → slice vs 0 m ≡ ok vs
  unfolding slice
  slice-all vs m e =
      let inside : (leb 0 m && leb m (length vs)) ≡ true = ground arith in
      let size : m - 0 ≡ length vs = omega arith in rw (slice, inside, size, take-length vs) refl

  generate-all :
      (t : Text) (vs : List (GoValue Time)) (info : ParamsInfo)
      → extract_parameters (tokens t) ≡ ok info
      → info.positional_parameters_count ≡ length vs
      → generate_statement_parameters (tokens t) (query vs) 0 ≡ ok (query vs)
  unfolding generate_statement_parameters positional_share
  generate-all t vs info e n =
      let enough : ltb (length vs) (0 + info.positional_parameters_count) ≡ false = ground arith in
      rw (e, enough, slice-all vs (0 + info.positional_parameters_count) (omega arith)) refl

  -- The parameters of a single statement that takes all the values.
  abbrev pub own_parameters : List (GoValue Time) → List (Params Time)
  own_parameters [] = []
  own_parameters (v ∷ vs) = query (v ∷ vs) ∷ []

  pub parse_statement_and_args-own :
      (t : Text) (vs : List (GoValue Time)) (info : ParamsInfo)
      → extract_parameters (tokens t) ≡ ok info
      → info.positional_parameters_count ≡ length vs
      → parse_statement_and_args tokens (t ∷ []) (convert_to_named env vs) ≡ ok (own_parameters vs)
  unfolding parse_statement_and_args convert_from share_parameters
  parse_statement_and_args-own t [] info e n = refl
  parse_statement_and_args-own t (v ∷ vs) info e n =
      rw
        (convert_args-convert_to_named (v ∷ vs), share_parameters, generate-all t (v ∷ vs) info e n)
        refl
