-- ===== src/Hrana/Request/Carries.antt =====
-- What a server reads from the statements of a request: their texts and the values of their arguments.
use libsql_client_go.Base.{
  ℕ, suc, ◌≡◌, refl, sym, ap, ◌∙◌, Bool, true, false, if◌then◌else◌, Option, none, some, List, [],
  ◌∷◌, ◌++◌, ltb, length, drop, get_elem?-of_drop, drop-suc, arith,
}
use mathlib.Core.List.{append-nil, append_assoc}
use mathlib.Core.Path.{subst}
use libsql_client_go.Base.Texts.{Text, codes}
use libsql_client_go.Base.Results.{Result, ok, err, Ensures, >>=-Ensures}
use libsql_client_go.Params.{Params, elements}
use libsql_client_go.Params.Ranges.{InAll, Fitting}
use libsql_client_go.Hrana.Value.{Clock}
use libsql_client_go.Hrana.Batch.{Stmt, Batch, BatchCondition, add_step, add_args}
use libsql_client_go.Hrana.Batch.Sql.{Reads}
use libsql_client_go.Hrana.Batch.Typed.{
  IsGoValue, IsGoParams, sent_positional, named_sql_of, add_args-Reads,
}
use libsql_client_go.Hrana.Request.{
  stmt_of, execute_stream, batch_stream, batch_loop, stmt_with, step_condition, add_rollback,
  BatchError, lift_value, empty_batch,
}
use libsql_client_go.Hrana.Request.Read.{
  Sent, AllRead, stmts_of, statements_of, AllRead-append, stmts_of-add_step,
}

module _ (clock : Clock) where
  open clock use {Time}

  -- The statement that is asked for: its text with the values of its parameters, if it has any.
  abbrev pub asked : Text → Option (Params Time) → Sent
  asked sql none = record { sql = some sql; positional = []; named = [] }
  asked sql (some p) = record {
    sql = some sql;
    positional = sent_positional clock p;
    named = named_sql_of clock (elements p.named);
  }

  abbrev pub all_asked : List Text → List (Params Time) → List Sent
  all_asked [] ps = []
  all_asked (t ∷ ts) [] = asked t none ∷ all_asked ts []
  all_asked (t ∷ ts) (p ∷ ps) = asked t (some p) ∷ all_asked ts ps

  lift_value-Ensures {ℓ κ} :
      {A : Type ℓ} (P : A → Type κ) (r : Result Text A) → Ensures P r → Ensures P (lift_value r)
  lift_value-Ensures P (ok a) h = h
  lift_value-Ensures P (err e) h = tt

  -- The step of one statement more.
  abbrev step :
      Bool → Bool → ℕ → List Text → Batch → List (Params Time) → Stmt → Result BatchError Batch
  step want_rows transactional idx sqls b ps s =
      batch_loop clock ps want_rows transactional sqls (suc idx)
        (add_step b s (step_condition transactional idx))

  AllRead-add_step :
      (b : Batch) (s : Stmt) (c : Option BatchCondition) (front : List Sent) (x : Sent)
      → AllRead (stmts_of b) front
      → Reads x.sql x.positional x.named s
      → AllRead (stmts_of (add_step b s c)) (front ++ (x ∷ []))
  AllRead-add_step b s c front x h r =
      subst (λ ss. AllRead ss (front ++ (x ∷ []))) (sym (stmts_of-add_step b s c))
        (AllRead-append (stmts_of b) (s ∷ []) front (x ∷ []) h (r, tt))

  -- Without parameters.
  batch_loop-texts :
      (want_rows transactional : Bool) (sqls : List Text) (idx : ℕ) (b : Batch) (front : List Sent)
      → AllRead (stmts_of b) front
      → Ensures
          (λ b'. AllRead (stmts_of b') (front ++ all_asked sqls []))
          (batch_loop clock [] want_rows transactional sqls idx b)
  unfolding batch_loop stmt_with
  batch_loop-texts want_rows transactional [] idx b front h =
      subst (AllRead (stmts_of b)) (sym (append-nil front)) h
  batch_loop-texts want_rows transactional (t ∷ ts) idx b front h =
      let c = step_condition transactional idx in
      let s = stmt_of t want_rows in
      let x = asked t none in
      subst
        (λ xs.
          Ensures (λ b'. AllRead (stmts_of b') xs) (step want_rows transactional idx ts b [] s))
        (append_assoc front (x ∷ []) (all_asked ts []))
        (batch_loop-texts want_rows transactional ts (suc idx) (add_step b s c) (front ++ (x ∷ []))
          (AllRead-add_step b s c front x h
            (record { text = refl; args = refl; named_args = refl })))

  -- With parameters, of which `rest` are those of the statements that are left.
  batch_loop-asked :
      (q : Params Time) (qs : List (Params Time)) (want_rows transactional : Bool)
      (sqls : List Text) (idx : ℕ) (b : Batch) (front : List Sent) (rest : List (Params Time))
      → drop idx (q ∷ qs) ≡ rest
      → length rest ≡ length sqls
      → InAll (IsGoValue clock) rest
      → AllRead (stmts_of b) front
      → Ensures
          (λ b'. AllRead (stmts_of b') (front ++ all_asked sqls rest))
          (batch_loop clock (q ∷ qs) want_rows transactional sqls idx b)
  unfolding batch_loop stmt_with
  batch_loop-asked q qs want_rows transactional [] idx b front rest d l k h =
      subst (AllRead (stmts_of b)) (sym (append-nil front)) h
  batch_loop-asked q qs want_rows transactional (t ∷ ts) idx b front [] d l k h =
      absurd (omega arith)
  batch_loop-asked q qs want_rows transactional (t ∷ ts) idx b front (p ∷ rest) d l k h =
      let here = get_elem?-of_drop idx (q ∷ qs) p rest d in
      let later : drop (suc idx) (q ∷ qs) ≡ rest = sym (drop-suc idx (q ∷ qs)) ∙ ap (drop 1) d in
      let some_params : ltb 0 (length (q ∷ qs)) ≡ true = ground arith in
      let c = step_condition transactional idx in
      let x = asked t (some p) in
      rw (batch_loop, some_params, here)
        (>>=-Ensures _ _ (lift_value (add_args clock p (stmt_of t want_rows))) _
          (lift_value-Ensures
            (Reads (some t) (sent_positional clock p) (named_sql_of clock (elements p.named)))
            (add_args clock p (stmt_of t want_rows))
            (add_args-Reads clock p (stmt_of t want_rows) k.0 refl refl))
          λ s r.
            subst
              (λ xs.
                Ensures (λ b'. AllRead (stmts_of b') xs)
                  (step want_rows transactional idx ts b (q ∷ qs) s))
              (append_assoc front (x ∷ []) (all_asked ts rest))
              (batch_loop-asked q qs want_rows transactional ts (suc idx) (add_step b s c)
                (front ++ (x ∷ [])) rest later (omega arith) k.1
                (AllRead-add_step b s c front x h r)))

  -- Behind the statements of a transaction comes the ROLLBACK.
  abbrev pub rollback_asked : Bool → List Sent
  rollback_asked transactional = if transactional then asked (codes "ROLLBACK") none ∷ [] else []

  add_rollback-asked :
      (transactional : Bool) (size : ℕ) (b : Batch) (front : List Sent)
      → AllRead (stmts_of b) front
      → AllRead
          (stmts_of (add_rollback transactional size b))
          (front ++ rollback_asked transactional)
  add_rollback-asked false size b front h = subst (AllRead (stmts_of b)) (sym (append-nil front)) h
  add_rollback-asked true size b front h =
      AllRead-add_step b (stmt_of (codes "ROLLBACK") false) _ front (asked (codes "ROLLBACK") none)
        h (record { text = refl; args = refl; named_args = refl })

  batch_loop-all :
      (want_rows transactional : Bool) (sqls : List Text) (ps : List (Params Time))
      → Fitting (IsGoValue clock) sqls ps
      → Ensures
          (λ b. AllRead (stmts_of b) (all_asked sqls ps))
          (batch_loop clock ps want_rows transactional sqls 0 empty_batch)
  batch_loop-all want_rows transactional sqls [] f =
      batch_loop-texts want_rows transactional sqls 0 empty_batch [] tt
  batch_loop-all want_rows transactional sqls (p ∷ ps) f =
      batch_loop-asked p ps want_rows transactional sqls 0 empty_batch [] (p ∷ ps) refl f.0 f.1 tt

  pub batch_stream-asked :
      (want_rows transactional : Bool) (sqls : List Text) (ps : List (Params Time))
      → Fitting (IsGoValue clock) sqls ps
      → Ensures
          (λ r. AllRead (statements_of r) (all_asked sqls ps ++ rollback_asked transactional))
          (batch_stream clock sqls ps want_rows transactional)
  unfolding batch_stream
  batch_stream-asked want_rows transactional sqls ps f =
      >>=-Ensures _ _ (batch_loop clock ps want_rows transactional sqls 0 empty_batch) _
        (batch_loop-all want_rows transactional sqls ps f)
        λ b h. add_rollback-asked transactional (length sqls) b (all_asked sqls ps) h

  abbrev AllParams : Option (Params Time) → Type 0
  AllParams none = Unit {0}
  AllParams (some p) = IsGoParams clock p

  pub execute_stream-asked :
      (want_rows : Bool) (sql : Text) (o : Option (Params Time))
      → AllParams o
      → Ensures
          (λ r. AllRead (statements_of r) (asked sql o ∷ []))
          (execute_stream clock sql o want_rows)
  unfolding execute_stream
  execute_stream-asked want_rows sql none h =
      (record { text = refl; args = refl; named_args = refl }, tt)
  execute_stream-asked want_rows sql (some p) h =
      >>=-Ensures _ _ (add_args clock p (stmt_of sql want_rows)) _
        (add_args-Reads clock p (stmt_of sql want_rows) h refl refl) λ s r. (r, tt)
