-- ===== src/Splitter/Calls.antt =====
-- The calls of `Next` from an iterator up to the end, as a relation that does not mention tokens.
use mathlib.Core.List.{map}
use libsql_client_go.Base.{
  ℕ, zero, suc, ◌≤◌, ◌<◌, ◌≡◌, refl, ap, sym, ◌∙◌, Bool, true, false, none, some, List, [], ◌∷◌,
  arith, length, get_or, Bool-cases, inl, inr, if◌then◌else◌,
}
use mathlib.Core.Path.{subst}
use libsql_client_go.Base.Texts.{Text, is_empty}
use libsql_client_go.Tokens.{Token, is_eof, visible}
use libsql_client_go.Splitter.{
  Scan, Turn, stop, finish, go, on_turn, turn, fresh, fuel_of, next, StatementIterator, Statement,
  create_statement_iterator, split_statement, SplitStatementExtraInfo,
}
use libsql_client_go.Splitter.Reference.{is_nil, cut, statement_of, statements, last_info}
use libsql_client_go.Splitter.Refine.{NoEof, Ready, create-Ready}
use libsql_client_go.Splitter.Rounds.{fresh-Sound, scan_list-Leaves}
use libsql_client_go.Splitter.Whole.{
  cut-calls, next-refines, fuel_enough, shorter, split_statement-eq-cut,
}

-- The texts that the calls from `it` on give, the last of them at the end. They are at most as many
-- as the fuel of a call.
pub data Reads (get_text : ℕ → ℕ → Text) : StatementIterator → List Text → Type 0 where
  last :
      {it it' : StatementIterator} (st : Statement)
      → next get_text it ≡ some (st, it')
      → st.is_eof ≡ true
      → 1 ≤ fuel_of it.tokenizer
      → Reads get_text it (st.statement ∷ [])
  more :
      {it it' : StatementIterator} {ts : List Text} (st : Statement)
      → next get_text it ≡ some (st, it')
      → st.is_eof ≡ false
      → suc (length ts) ≤ fuel_of it.tokenizer
      → Reads get_text it' ts
      → Reads get_text it (st.statement ∷ ts)

pub Reads-few :
    {get_text : ℕ → ℕ → Text} {it : StatementIterator} {ts : List Text}
    → Reads get_text it ts
    → (1 ≤ length ts) × (length ts ≤ fuel_of it.tokenizer)
Reads-few (last st eq eof b) = (omega arith, b)
Reads-few (more st eq eof b r) = (omega arith, b)

-- The texts that are not empty.
unfoldable pub filled : List Text → List Text
filled [] = []
filled (t ∷ ts) = let rest = filled ts in if is_empty t then rest else t ∷ rest

cut-length : (e : Token) (s : Scan) (r : List Token) → length (cut e s r) ≤ suc (length r)
unfolding cut
cut-length e s [] = omega arith
cut-length e s (t ∷ r) = go_on (turn s t (get_or r 0 e) (get_or r 1 e)) (λ s'. cut-length e s' r)
  where
    go_on :
        (q : Turn)
        → ((s' : Scan) → length (cut e s' r) ≤ suc (length r))
        → length (
            on_turn q
              (λ s'. s' ∷ [])
              (λ s'. elim (is_nil r) [ true ↦ s' ∷ [] | false ↦ s' ∷ cut e (fresh s'.current) r ])
              (λ s'. cut e s' r))
          ≤ suc (suc (length r))
    go_on (stop s') ih = omega arith
    go_on (finish s') ih = elim (Bool-cases (is_nil r)) [
      | inl h ↦ rw h (omega arith)
      | inr h ↦ rw h (omega (arith, ih (fresh s'.current)))
    ]
    go_on (go s') ih = omega (arith, ih s')

module _ (get_text : ℕ → ℕ → Text) (e : Token) (end : is_eof e.kind ≡ true) where
  texts_of : List Scan → List Text
  texts_of ss = map (statement_of get_text) ss

  length-texts_of : (ss : List Scan) → length (texts_of ss) ≡ length ss
  unfolding texts_of
  length-texts_of [] = refl
  length-texts_of (s ∷ ss) = ap suc (length-texts_of ss)

  -- A call of `Next`, by whether it reports the end.
  step-Reads :
      (b : Bool) (st : Statement) (it it' : StatementIterator) (ss : List Scan)
      → next get_text it ≡ some (st, it')
      → st.is_eof ≡ b
      → suc (length (elim b [ true ↦ [] | false ↦ ss ])) ≤ fuel_of it.tokenizer
      → (b ≡ false → Reads get_text it' (texts_of ss))
      → Reads get_text it (st.statement ∷ texts_of (elim b [ true ↦ [] | false ↦ ss ]))
  unfolding texts_of
  step-Reads true st it it' ss eq h k rest = last st eq h (omega (arith, k))
  step-Reads false st it it' ss eq h k rest =
      more st eq h (omega (arith, k, length-texts_of ss)) (rest refl)

  Ready-Reads :
      (f : ℕ) (r : List Token) (it : StatementIterator)
      → Ready e it.tokenizer r
      → NoEof r
      → length r < f
      → Reads get_text it (texts_of (cut e (fresh it.current_token) r))
  unfolding texts_of
  Ready-Reads zero r it d n h = elim h [ ]
  Ready-Reads (suc f) r it d n h =
      let (b, eq, d') = next-refines get_text e end r it d n in
      let l = scan_list-Leaves e r (fresh it.current_token) (fresh-Sound it.current_token) n in
      let calls = cut-calls e r (fresh it.current_token) (fresh-Sound it.current_token) in
      let few : length (cut e (fresh it.current_token) r) ≤ fuel_of it.tokenizer =
        omega (arith, cut-length e (fresh it.current_token) r, fuel_enough it.tokenizer r d) in
      subst (λ ss. Reads get_text it (texts_of ss)) (sym calls)
        (step-Reads _ _ it _ _ eq refl
          (subst (λ (ss : List Scan). length ss ≤ fuel_of it.tokenizer) calls few)
          (λ go_on. Ready-Reads f _ _ d' l.no_eof (shorter get_text e end _ _ r f l h go_on)))

  statements-texts_of : (ss : List Scan) → statements get_text ss ≡ filled (texts_of ss)
  unfolding statements texts_of filled
  statements-texts_of [] = refl
  statements-texts_of (s ∷ ss) = rw (statements-texts_of ss) refl

  -- `SplitStatement` gives the texts that are not empty of the calls of `Next` from the start.
  pub split_statement-Reads :
      (ts : List Token)
      → NoEof (visible ts)
      → (texts : List Text) × (info : SplitStatementExtraInfo) × (split_statement get_text ts e
          ≡ some (filled texts, info))
        × Reads get_text (create_statement_iterator ts e) texts
  unfolding create_statement_iterator
  split_statement-Reads ts n =
      let d = create-Ready ts e in
      let ss = cut e (fresh none) (visible ts) in
      (
        texts_of ss,
        last_info (fresh none) ss,
        split_statement-eq-cut get_text e end ts n
            ∙ ap (λ sts. some (sts, last_info (fresh none) ss)) (statements-texts_of ss),
        Ready-Reads (suc (length (visible ts))) (visible ts) _ d n (omega arith),
      )
