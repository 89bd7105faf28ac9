-- ===== src/Hrana/Request/Transaction.antt =====
-- What a server makes of the conditions of a transactional batch. The rules for "ok" and "not" are
-- those of the Hrana protocol, which this client relies on.
use libsql_client_go.Base.{
  ℕ, zero, suc, ◌≡◌, refl, sym, ap, ◌∙◌, Bool, true, false, not, ◌&&◌, Option, none, some, List, [],
  ◌∷◌, ◌++◌, map, arith, if◌then◌else◌, length, get_elem?, length-append, ltb,
}
use mathlib.Core.List.{append-nil, append_assoc, map-append}
use libsql_client_go.Base.Texts.{Text, codes, text_eq}
use libsql_client_go.Base.Results.{ok, >>=-eq-ok}
use libsql_client_go.Base.Decimal.{ℤ, pos}
use libsql_client_go.Params.{Params}
use libsql_client_go.Hrana.Value.{Clock}
use libsql_client_go.Hrana.Batch.{Batch, BatchStep, BatchCondition, CondRef, condition, null, ref}
use libsql_client_go.Hrana.Request.{
  StreamRequest, stmt_of, stmt_with, step_condition, step_before, if_ok, if_not, add_rollback,
  batch_loop, batch_stream, empty_batch,
}

pub data Outcome : Type 0 where
  succeeded failed skipped : Outcome

abbrev is_success : Option Outcome → Bool
is_success (some succeeded) = true
is_success _ = false

-- The outcome of a step that a condition names.
abbrev step_succeeded : List Outcome → Option ℤ → Bool
step_succeeded done (some (pos i)) = is_success (get_elem? done i)
step_succeeded done _ = false

-- Whether a condition holds behind the steps that are done.
mutual
  unfolding text_eq

  holds : List Outcome → BatchCondition → Bool
  holds done (condition kind step cond conds) =
      if text_eq kind (codes "ok")
      then step_succeeded done step
      else text_eq kind (codes "not") && fails done cond

  fails : List Outcome → CondRef → Bool
  fails done null = false
  fails done (ref c) = not (holds done c)

-- A step with no condition always runs. `works i` says whether step `i` succeeds if it runs.
abbrev may_run : List Outcome → Option BatchCondition → Bool
may_run done none = true
may_run done (some c) = holds done c

abbrev ran : Bool → Outcome
ran b = if b then succeeded else failed

-- The outcomes of the steps, one behind the other.
pub run : (ℕ → Bool) → List Outcome → List (Option BatchCondition) → List Outcome
unfolding holds
run works done [] = done
run works done (c ∷ cs) =
    run works (done ++ ((if may_run done c then ran (works (length done)) else skipped) ∷ [])) cs

-- The outcomes that a transaction should have: the statements up to the first that fails, and none
-- behind it.
unfoldable pub expected : (ℕ → Bool) → Bool → ℕ → ℕ → List Outcome
expected works going idx zero = []
expected works going idx (suc n) =
    (if going then ran (works idx) else skipped) ∷ expected works (going && works idx) (suc idx) n

unfoldable pub all_work : (ℕ → Bool) → ℕ → ℕ → Bool
all_work works idx zero = true
all_work works idx (suc n) = works idx && all_work works (suc idx) n

abbrev pub conditions_of : Batch → List (Option BatchCondition)
conditions_of b = map (λ s. s.condition) b.steps

-- The conditions of `n` statements from `idx`.
conditions_from : ℕ → ℕ → List (Option BatchCondition)
conditions_from idx zero = []
conditions_from idx (suc n) = step_condition true idx ∷ conditions_from (suc idx) n

-- Whether the statement before `idx` succeeded, or there is none.
abbrev going_at : List Outcome → ℕ → Bool
going_at done zero = true
going_at done (suc i) = is_success (get_elem? done i)

get_elem?-last :
    (done : List Outcome) (o : Outcome) → get_elem? (done ++ (o ∷ [])) (length done) ≡ some o
get_elem?-last [] o = refl
get_elem?-last (x ∷ done) o = get_elem?-last done o

may_run-going :
    (done : List Outcome) (idx : ℕ) → may_run done (step_condition true idx) ≡ going_at done idx
unfolding holds text_eq
may_run-going done zero = refl
may_run-going done (suc i) = refl

going-next :
    (works : ℕ → Bool) (done : List Outcome) (idx : ℕ)
    → length done ≡ idx
    → going_at (done ++ ((if going_at done idx then ran (works idx) else skipped) ∷ [])) (suc idx)
      ≡ (going_at done idx && works idx)
going-next works done idx h = rw (← h, get_elem?-last) (ground arith)

run-conditions :
    (works : ℕ → Bool) (n idx : ℕ) (done : List Outcome) (rest : List (Option BatchCondition))
    → length done ≡ idx
    → run works done (conditions_from idx n ++ rest)
      ≡ run works (done ++ expected works (going_at done idx) idx n) rest
unfolding run conditions_from expected
run-conditions works zero idx done rest h = rw append-nil
run-conditions works (suc n) idx done rest h =
    ap (λ g. run works (done ++ ((if g then ran (works (length done)) else skipped) ∷ [])) later)
      (may_run-going done idx)
    ∙ ap
        (λ (k : ℕ).
          run works (done ++ ((if going_at done idx then ran (works k) else skipped) ∷ [])) later)
        h
    ∙ (run-conditions works n (suc idx) (done ++ (o ∷ [])) rest
          (omega (arith, h, length-append done (o ∷ [])))
        ∙ ap (λ g. run works ((done ++ (o ∷ [])) ++ expected works g (suc idx) n) rest)
            (going-next works done idx h)
        ∙ ap (λ ds. run works ds rest) (append_assoc done (o ∷ []) _))
  where
    later : List (Option BatchCondition)
    later = conditions_from (suc idx) n ++ rest

    o : Outcome
    o = if going_at done idx then ran (works idx) else skipped

length-expected :
    (works : ℕ → Bool) (going : Bool) (n idx : ℕ) → length (expected works going idx n) ≡ n
unfolding expected
length-expected works going zero idx = refl
length-expected works going (suc n) idx = ap suc (length-expected works _ n (suc idx))

-- The last statement succeeded exactly if all did.
last-expected :
    (works : ℕ → Bool) (going : Bool) (m idx : ℕ)
    → is_success (get_elem? (expected works going idx (suc m)) m)
      ≡ (going && all_work works idx (suc m))
unfolding expected all_work
last-expected works going zero idx = ground arith
last-expected works going (suc m) idx =
    last-expected works (going && works idx) m (suc idx) ∙ ground arith

rollback_outcome :
    (works : ℕ → Bool) (m : ℕ)
    → run works (expected works true 0 (suc m)) (some (if_not (if_ok (step_before (suc m)))) ∷ [])
      ≡ expected works true 0 (suc m)
        ++ ((if all_work works 0 (suc m) then skipped else ran (works (suc m))) ∷ [])
unfolding run holds text_eq
rollback_outcome works m =
    rw (last-expected works true m 0, length-expected works true (suc m) 0) (ground arith)

module _ (clock : Clock) where
  open clock use {Time}

  batch_loop-conditions :
      (params : List (Params Time)) (w : Bool) (sqls : List Text) (idx : ℕ) (b b' : Batch)
      → batch_loop clock params w true sqls idx b ≡ ok b'
      → conditions_of b' ≡ conditions_of b ++ conditions_from idx (length sqls)
  unfolding batch_loop conditions_from
  batch_loop-conditions params w [] idx b b' h =
      let same : b' ≡ b = cc in ap conditions_of same ∙ sym (append-nil (conditions_of b))
  batch_loop-conditions params w (sql ∷ sqls) idx b b' h =
      let (s, e, later) =
        >>=-eq-ok (stmt_with clock (ltb 0 (length params)) (get_elem? params idx) (stmt_of sql w)) _
          h in
      batch_loop-conditions params w sqls (suc idx) _ b' later ∙ rw (map-append, append_assoc)

  -- A transactional batch of at least one statement, on a server that runs it by its conditions,
  -- whichever statements would fail: the statements run in order up to the first that fails, none
  -- behind it runs, and the final ROLLBACK runs exactly if one failed.
  pub batch_stream-run :
      (sql : Text) (sqls : List Text) (params : List (Params Time)) (w : Bool) (works : ℕ → Bool)
      (r : StreamRequest) (b : Batch)
      → batch_stream clock (sql ∷ sqls) params w true ≡ ok r
      → r.batch ≡ some b
      → let n = suc (length sqls) in
        run works [] (conditions_of b)
        ≡ expected works true 0 n ++ ((if all_work works 0 n then skipped else ran (works n)) ∷ [])
  unfolding batch_stream
  batch_stream-run sql sqls params w works r b h e =
      let (b', looped, made) =
        >>=-eq-ok (batch_loop clock params w true (sql ∷ sqls) 0 empty_batch) _ h in
      let same : b ≡ add_rollback true (suc (length sqls)) b' = cc (e, made) in
      ap (λ (x : Batch). run works [] (conditions_of x)) same
      ∙ ap (run works []) (map-append (λ (s : BatchStep). s.condition) b'.steps _)
      ∙ ap
          (λ cs.
            run works [] (cs ++ (some (if_not (if_ok (step_before (suc (length sqls))))) ∷ [])))
          (batch_loop-conditions params w (sql ∷ sqls) 0 empty_batch b' looped)
      ∙ run-conditions works (suc (length sqls)) 0 []
          (some (if_not (if_ok (step_before (suc (length sqls))))) ∷ []) refl
      ∙ rollback_outcome works (length sqls)
