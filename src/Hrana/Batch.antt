-- ===== src/Hrana/Batch.antt =====
-- libsql/internal/hrana: stmt.go and batch.go.
pub mod Sql
pub mod Index
pub mod Typed
pub mod Sendable
use libsql_client_go.Base.{ℕ, Bool, Option, List, [], ◌∷◌, ◌++◌}
use libsql_client_go.Base.Texts.{Text}
use libsql_client_go.Base.Results.{Result, ok, ◌>>=◌}
use libsql_client_go.Base.Decimal.{ℤ}
use libsql_client_go.Values.{GoValue}
use libsql_client_go.Params.{Params, elements}
use libsql_client_go.Hrana.Value.{Clock, Value, to_value}

pub record NamedArg : Type 0 where
  pub name : Text
  pub value : Value

pub record Stmt : Type 0 where
  pub sql : Option Text
  pub sql_id : Option ℤ
  pub args : List Value
  pub named_args : List NamedArg
  pub want_rows : Bool
  pub replication_index : Option ℕ

-- `Type`, `Step`, `Cond` and `Conds`. No code here fills `Conds`.
mutual
  pub data BatchCondition : Type 0 where
    condition : Text → Option ℤ → CondRef → Conditions → BatchCondition

  pub data CondRef : Type 0 where
    null : CondRef
    ref : BatchCondition → CondRef

  pub data Conditions : Type 0 where
    end : Conditions
    next : BatchCondition → Conditions → Conditions

pub record BatchStep : Type 0 where
  pub stmt : Stmt
  pub condition : Option BatchCondition

pub record Batch : Type 0 where
  pub steps : List BatchStep
  pub replication_index : Option ℕ

-- `Batch.Add`
abbrev pub add_step : Batch → Stmt → Option BatchCondition → Batch
add_step b stmt cond = record b {
  steps = b.steps ++ (record { stmt = stmt; condition = cond } ∷ []);
}

module _ (clock : Clock) where
  open clock use {Time}

  -- The values of positional arguments; the first that cannot be converted is the error.
  convert_all : List (GoValue Time) → Result Text (List Value)
  convert_all [] = ok []
  convert_all (a ∷ rest) = do v ← to_value clock a; vs ← convert_all rest; ok (v ∷ vs)

  convert_named : List (Text × GoValue Time) → Result Text (List NamedArg)
  convert_named [] = ok []
  convert_named ((k, a) ∷ rest) = do
    v ← to_value clock a
    vs ← convert_named rest
    ok (record { name = k; value = v } ∷ vs)

  pub add_positional_args : List (GoValue Time) → Stmt → Result Text Stmt
  unfolding convert_all
  add_positional_args vs s = do converted ← convert_all vs; ok (record s { args = converted })

  pub add_named_args : List (Text × GoValue Time) → Stmt → Result Text Stmt
  unfolding convert_named
  add_named_args vs s = do converted ← convert_named vs; ok (record s { named_args = converted })

  -- `Stmt.AddArgs`
  unfoldable pub add_args : Params Time → Stmt → Result Text Stmt
  unfolding add_positional_args add_named_args
  add_args p s = elim (elements p.named) [
    | [] ↦ add_positional_args (elements p.positional) s
    | e ∷ es ↦ add_named_args (e ∷ es) s
  ]
