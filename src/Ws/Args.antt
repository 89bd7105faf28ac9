-- ===== src/Ws/Args.antt =====
-- The arguments of prepared statements.
use libsql_client_go.Base.{ℕ, suc, ◌≡◌, refl, ap, false, List, [], ◌∷◌, map, ltb, arith}
use libsql_client_go.Base.Texts.{Text}
use libsql_client_go.Base.Results.{◌>>=◌}
use libsql_client_go.Base.Decimal.{ℤ}
use libsql_client_go.Values.{GoValue}
use libsql_client_go.Params.{insert_arg, sort_args}
use libsql_client_go.Ws.Exec.{WebsocketConn, Params, exec}
use libsql_client_go.Ws.Driver.{
  split_args, convert_args, number_args, convert_to_named, value_of_arg, exec_context, stmt_exec,
  result_of_exec,
}

module _ {Time : Type 0} where
  split_args-number_args :
      (i : ℕ) (vs : List (GoValue Time)) → split_args (number_args i vs) ≡ (number_args i vs, [])
  unfolding split_args number_args
  split_args-number_args i [] = refl
  split_args-number_args i (v ∷ vs) = rw (split_args-number_args (suc i) vs) refl

  insert_arg-number_args :
      (i : ℕ) (v : GoValue Time) (vs : List (GoValue Time))
      → insert_arg (record { name = []; ordinal = i; value = v }) (number_args (suc i) vs)
        ≡ number_args i (v ∷ vs)
  unfolding insert_arg number_args
  insert_arg-number_args i v [] = refl
  insert_arg-number_args i v (w ∷ vs) =
      let after : ltb (suc i) i ≡ false = ground arith in rw after refl

  sort_args-number_args :
      (i : ℕ) (vs : List (GoValue Time)) → sort_args (number_args i vs) ≡ number_args i vs
  unfolding sort_args number_args
  sort_args-number_args i [] = refl
  sort_args-number_args i (v ∷ vs) =
      rw (sort_args-number_args (suc i) vs) (insert_arg-number_args i v vs)

  values-number_args : (i : ℕ) (vs : List (GoValue Time)) → map value_of_arg (number_args i vs) ≡ vs
  unfolding number_args
  values-number_args i [] = refl
  values-number_args i (v ∷ vs) = ap (λ ws. v ∷ ws) (values-number_args (suc i) vs)

  abbrev pub all_positional : List (GoValue Time) → Params Time
  all_positional vs = record { positional_args = vs; named_args = [] }

  convert_args-convert_to_named :
      (vs : List (GoValue Time)) → convert_args (convert_to_named vs) ≡ all_positional vs
  unfolding convert_args
  convert_args-convert_to_named vs =
      rw (split_args-number_args 0 vs, sort_args-number_args 0 vs, values-number_args 0 vs) refl

  -- A prepared statement that is run with values makes the call of `exec` that has all of them as
  -- positional arguments, in their order.
  pub stmt_exec-exec :
      (outside : ℤ) (walk : ℕ) (query : Text) (vs : List (GoValue Time)) (c : WebsocketConn)
      → let r = exec walk c query (all_positional vs) false in
        stmt_exec outside walk query vs c ≡ (r.0 >>= result_of_exec outside, r.1)
  unfolding exec_context
  stmt_exec-exec outside walk query vs c = rw (convert_args-convert_to_named vs) refl
