-- ===== src/Hrana/Request/Read.antt =====
-- The statements of a request and a server's reading of them.
use libsql_client_go.Base.{◌≡◌, Option, none, some, List, [], ◌∷◌, ◌++◌, map}
use mathlib.Core.List.{map-append}
use libsql_client_go.Base.Texts.{Text}
use libsql_client_go.Hrana.Batch.{Stmt, Batch, BatchStep, BatchCondition, add_step}
use libsql_client_go.Hrana.Batch.Sql.{SqlValue, Reads}
use libsql_client_go.Hrana.Request.{StreamRequest}

-- A statement as a server reads it.
pub record Sent : Type 0 where
  pub sql : Option Text
  pub positional : List SqlValue
  pub named : List (Text × SqlValue)

-- A server reads these statements as those.
abbrev pub AllRead : List Stmt → List Sent → Type 0
AllRead [] [] = Unit {0}
AllRead (s ∷ ss) (x ∷ xs) = Reads x.sql x.positional x.named s × AllRead ss xs
AllRead _ _ = ⊥

abbrev pub stmts_of : Batch → List Stmt
stmts_of b = map (λ (st : BatchStep). st.stmt) b.steps

-- The statements of a request, in order.
abbrev pub statements_of : StreamRequest → List Stmt
statements_of r = elim r.stmt [
  | some s ↦ s ∷ []
  | none ↦ elim r.batch [ none ↦ [] | some b ↦ stmts_of b ]
]

pub AllRead-append :
    (ss ts : List Stmt) (xs ys : List Sent)
    → AllRead ss xs
    → AllRead ts ys
    → AllRead (ss ++ ts) (xs ++ ys)
AllRead-append [] ts [] ys h k = k
AllRead-append (s ∷ ss) ts (x ∷ xs) ys h k = (h.0, AllRead-append ss ts xs ys h.1 k)
AllRead-append [] ts (x ∷ xs) ys h k = absurd h
AllRead-append (s ∷ ss) ts [] ys h k = absurd h

pub stmts_of-add_step :
    (b : Batch) (s : Stmt) (c : Option BatchCondition)
    → stmts_of (add_step b s c) ≡ stmts_of b ++ (s ∷ [])
stmts_of-add_step b s c =
    map-append (λ (st : BatchStep). st.stmt) b.steps (record { stmt = s; condition = c } ∷ [])
