-- ===== src/Conn/Rows/Sets.antt =====
-- Going through the result sets of a batch (libsql/internal/http/shared/rows.go, `NextResultSet`).
use libsql_client_go.Base.{
  ℕ, zero, suc, ◌+◌, ◌-◌, ◌<◌, ◌≡◌, refl, ap, sym, ◌∙◌, inl, inr, true, false, not, Option, none,
  some, List, [], ◌∷◌, map, ltb, if◌then◌else◌, Bool-cases, length, get_elem?, drop, length-drop,
  drop-suc, arith,
}
use libsql_client_go.Base.Texts.{Text, is_empty}
use libsql_client_go.Hrana.Response.{StmtResult, BatchResult, HranaError}
use libsql_client_go.Conn.Rows.{
  Rows, RowsError, at_eof, failed_statement, no_results, of_batch, new_rows, set_at, sets_count,
  result_of_set, error_of_set, has_result, has_next_result_set, next_result_set,
}

-- A call that failed ends the reading; one that did not has reached a set, and the rest follows.
reading :
    Option RowsError
    → Option StmtResult
    → List (Option StmtResult) × Option RowsError
    → List (Option StmtResult) × Option RowsError
reading (some e) set rest = ([], some e)
reading none set rest = (set ∷ rest.0, rest.1)

-- A caller that calls `NextResultSet` until it gives an error, `n` times at most, and keeps the set
-- that the cursor is on after each call.
pub read_sets : ℕ → Rows → List (Option StmtResult) × Option RowsError
unfolding reading
read_sets zero r = ([], none)
read_sets (suc n) r =
    let (failure, r') = next_result_set r in
    reading failure (result_of_set r'.result r'.current_result_set_index) (read_sets n r')

-- The message of the first step of these, which is empty where the step has no error.
unfoldable pub message_of : List (Option HranaError) → Text
message_of (some x ∷ es) = x.message
message_of _ = []

-- The results of steps up to the first that has an error or no result, and how they end.
unfoldable pub good_sets :
    List (Option HranaError) → List (Option StmtResult) → List StmtResult × RowsError
unfolding message_of
good_sets es [] = ([], at_eof)
good_sets es (o ∷ os) =
    let rest = good_sets (drop 1 es) os in
    if is_empty (message_of es)
    then elim o [ none ↦ ([], no_results) | some s ↦ (s ∷ rest.0, rest.1) ]
    else ([], failed_statement (message_of es))

message_at : List (Option HranaError) → ℕ → Text
message_at es i = elim (get_elem? es i) [
  | none ↦ []
  | some e ↦ elim e [ none ↦ [] | some x ↦ x.message ]
]

message_at-drop : (i : ℕ) (es : List (Option HranaError)) → message_at es i ≡ message_of (drop i es)
unfolding message_at message_of
message_at-drop zero [] = refl
message_at-drop (suc i) [] = refl
message_at-drop zero (none ∷ es) = refl
message_at-drop zero (some x ∷ es) = refl
message_at-drop (suc i) (e ∷ es) = message_at-drop i es

error_of_set-drop :
    (b : BatchResult) (i : ℕ) → error_of_set (of_batch b) i ≡ message_of (drop i b.step_errors)
unfolding error_of_set message_at
error_of_set-drop b i = message_at-drop i b.step_errors

set_at-drop :
    (i : ℕ) (os : List (Option StmtResult)) (o : Option StmtResult)
    (more : List (Option StmtResult))
    → drop i os ≡ o ∷ more
    → set_at i os ≡ o
set_at-drop zero [] o more e = cc
set_at-drop zero (x ∷ xs) o more e = cc
set_at-drop (suc i) [] o more e = cc
set_at-drop (suc i) (x ∷ xs) o more e = set_at-drop i xs o more e

-- What `NextResultSet` returns on a step of the batch, by the step's message and result.
failure_of : Text → Option StmtResult → Option RowsError
failure_of m o =
    if is_empty m
    then elim o [ none ↦ some no_results | some s ↦ none ]
    else some (failed_statement m)

abbrev on_row : BatchResult → ℕ → ℕ → Rows
on_row b i j = record { result = of_batch b; current_result_set_index = i; current_row_idx = j }

failure_of-result :
    (o : Option StmtResult) (r : Rows)
    → Path
        (Option RowsError × Rows)
        (if not (elim o [ none ↦ false | some s ↦ true ]) then (some no_results, r) else (none, r))
        (elim o [ none ↦ some no_results | some s ↦ none ], r)
failure_of-result none r = refl
failure_of-result (some s) r = refl

result_of_set-drop :
    (b : BatchResult) (i : ℕ) (o : Option StmtResult) (os : List (Option StmtResult))
    → drop (suc i) b.step_results ≡ o ∷ os
    → result_of_set (of_batch b) (suc i) ≡ o
unfolding result_of_set
result_of_set-drop b i o os e = set_at-drop (suc i) b.step_results o os e

next_result_set-end :
    (b : BatchResult) (i j : ℕ)
    → drop (suc i) b.step_results ≡ []
    → next_result_set (on_row b i j) ≡ (some at_eof, on_row b i j)
unfolding next_result_set
next_result_set-end b i j e =
    let size = length-drop (suc i) b.step_results in
    let none_left : length (drop (suc i) b.step_results) ≡ 0 = rw e refl in
    let at_end : ltb i (length b.step_results - 1) ≡ false = ground arith in
    rw (has_next_result_set, sets_count, at_end) refl

next_result_set-step :
    (b : BatchResult) (i j : ℕ) (o : Option StmtResult) (os : List (Option StmtResult))
    → drop (suc i) b.step_results ≡ o ∷ os
    → next_result_set (on_row b i j)
      ≡ (failure_of (message_of (drop (suc i) b.step_errors)) o, on_row b (suc i) 0)
unfolding next_result_set failure_of
next_result_set-step b i j o os e =
    let next : i + 1 ≡ suc i = omega arith in
    let size = length-drop (suc i) b.step_results in
    let one_left : length (drop (suc i) b.step_results) ≡ suc (length os) = rw e refl in
    let more : ltb i (length b.step_results - 1) ≡ true = ground arith in
    let here = set_at-drop (suc i) b.step_results o os e in
    elim (Bool-cases (is_empty (message_of (drop (suc i) b.step_errors)))) [
      | inr c ↦
          rw (has_next_result_set, sets_count, more, next, error_of_set-drop b (suc i), c) refl
      | inl c ↦
          rw
            (
              has_next_result_set,
              sets_count,
              more,
              next,
              error_of_set-drop b (suc i),
              c,
              has_result,
              result_of_set,
              here,
            )
            (failure_of-result o (on_row b (suc i) 0))
    ]

by_step :
    (m : Text) (o : Option StmtResult) (good : List StmtResult × RowsError)
    → Path
        (List (Option StmtResult) × Option RowsError)
        (reading (failure_of m o) o (map some good.0, some good.1))
        (let all : List StmtResult × RowsError =
            if is_empty m
            then elim o [ none ↦ ([], no_results) | some s ↦ (s ∷ good.0, good.1) ]
            else ([], failed_statement m) in
          (map some all.0, some all.1))
unfolding failure_of reading
by_step [] none good = refl
by_step [] (some s) good = refl
by_step (c ∷ m) o good = refl

read_sets-from :
    (b : BatchResult) (n i j : ℕ) (os : List (Option StmtResult))
    → drop (suc i) b.step_results ≡ os
    → length os < n
    → read_sets n (on_row b i j)
      ≡ (let good = good_sets (drop (suc i) b.step_errors) os in (map some good.0, some good.1))
unfolding read_sets reading good_sets
read_sets-from b zero i j os e h = absurd (omega arith)
read_sets-from b (suc n) i j [] e h = rw (read_sets, next_result_set-end b i j e) refl
read_sets-from b (suc n) i j (o ∷ os) e h =
    let later : drop (suc (suc i)) b.step_results ≡ os =
      sym (drop-suc (suc i) b.step_results) ∙ ap (drop 1) e in
    rw
      (
        read_sets,
        next_result_set-step b i j o os e,
        read_sets-from b n (suc i) 0 os later (omega arith),
        ← drop-suc (suc i) b.step_errors,
        result_of_set-drop b i o os e,
      )
      (by_step (message_of (drop (suc i) b.step_errors)) o
        (good_sets (drop 1 (drop (suc i) b.step_errors)) os))

-- The sets that a caller reaches by `NextResultSet` behind the first set of a batch, calling it until
-- it fails, are the results of the steps behind the first, in order, up to the first step that has an
-- error message or no result; the last call reports that message, that there are no results, or,
-- where no such step is left, io.EOF. As many calls as the batch has steps, and one, are enough.
pub read_sets-good :
    (b : BatchResult)
    → read_sets (length b.step_results + 1) (new_rows (of_batch b)) ≡ (
        let good = good_sets (drop 1 b.step_errors) (drop 1 b.step_results) in
        (map some good.0, some good.1))
read_sets-good b =
    let size = length-drop 1 b.step_results in
    read_sets-from b (length b.step_results + 1) 0 0 (drop 1 b.step_results) refl (omega arith)
