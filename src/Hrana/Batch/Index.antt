-- ===== src/Hrana/Batch/Index.antt =====
-- A statement that is given its arguments keeps its replication index.
use libsql_client_go.Base.{◌≡◌, none, List, [], ◌∷◌}
use libsql_client_go.Base.Texts.{Text}
use libsql_client_go.Base.Results.{Ensures, >>=-Ensures, Ensures-nothing}
use libsql_client_go.Values.{GoValue}
use libsql_client_go.Params.{Params, elements}
use libsql_client_go.Hrana.Value.{Clock}
use libsql_client_go.Hrana.Batch.{
  Stmt, add_args, add_positional_args, add_named_args, convert_all, convert_named,
}

abbrev pub Without : Stmt → Type 0
Without s = s.replication_index ≡ none

module _ (clock : Clock) where
  open clock use {Time}

  pub add_args-Without :
      (p : Params Time) (s : Stmt) → Without s → Ensures Without (add_args clock p s)
  unfolding add_args add_positional_args add_named_args
  add_args-Without p s h = by_named (elements p.named)
    where
      by_named :
          (m : List (Text × GoValue Time))
          → Ensures Without (elim m [
            | [] ↦ add_positional_args clock (elements p.positional) s
            | e ∷ es ↦ add_named_args clock (e ∷ es) s
          ])
      by_named [] =
          >>=-Ensures _ _ (convert_all clock (elements p.positional)) _ (Ensures-nothing _)
            λ vs u. h
      by_named (e ∷ es) =
          >>=-Ensures _ _ (convert_named clock (e ∷ es)) _ (Ensures-nothing _) λ vs u. h
