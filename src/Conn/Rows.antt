-- ===== src/Conn/Rows.antt =====
-- libsql/internal/http/shared/rows.go: the cursor over results; and the two rows providers of
-- libsql/internal/http/hranaV2/hranaV2.go.
pub mod Cursor
pub mod Sets
mod Tests
use libsql_client_go.Base.{
  ℕ, zero, suc, ◌+◌, ◌-◌, Bool, true, false, not, ◌&&◌, Option, none, some, List, [], ◌∷◌, map, ltb,
  ◌==◌, if◌then◌else◌, length, get_elem?,
}
use libsql_client_go.Base.Texts.{Text, is_empty}
use libsql_client_go.Base.Results.{Result, ok, err}
use libsql_client_go.Hrana.Value.{Clock, Value, Read, value, panic, from_value}
use libsql_client_go.Values.{GoValue, nil}
use libsql_client_go.Hrana.Response.{Column, StmtResult, BatchResult, HranaError}

-- The two implementations of `rowsProvider`.
pub data RowsProvider : Type 0 where
  of_stmt : StmtResult → RowsProvider
  of_batch : BatchResult → RowsProvider

unfoldable pub sets_count : RowsProvider → ℕ
sets_count (of_stmt r) = 1
sets_count (of_batch b) = length b.step_results

-- The result of a set, where the guards of the methods let one through.
abbrev pub set_at : ℕ → List (Option StmtResult) → Option StmtResult
set_at set_idx rs = elim (get_elem? rs set_idx) [ none ↦ none | some r ↦ r ]

unfoldable pub result_of_set : RowsProvider → ℕ → Option StmtResult
result_of_set (of_stmt r) zero = some r
result_of_set (of_stmt r) (suc n) = none
result_of_set (of_batch b) n = set_at n b.step_results

unfoldable pub rows_count : RowsProvider → ℕ → ℕ
unfolding result_of_set
rows_count p set_idx = elim (result_of_set p set_idx) [ none ↦ 0 | some r ↦ length r.rows ]

abbrev pub name_of : Column → Text
name_of c = elim c.name [ none ↦ [] | some n ↦ n ]

unfoldable pub columns : RowsProvider → ℕ → List Text
unfolding result_of_set
columns p set_idx = elim (result_of_set p set_idx) [ none ↦ [] | some r ↦ map name_of r.cols ]

unfoldable pub error_of_set : RowsProvider → ℕ → Text
error_of_set (of_stmt r) set_idx = []
error_of_set (of_batch b) set_idx = elim (get_elem? b.step_errors set_idx) [
  | none ↦ []
  | some e ↦ elim e [ none ↦ [] | some x ↦ x.message ]
]

unfoldable pub has_result : RowsProvider → ℕ → Bool
unfolding result_of_set
has_result p set_idx = elim (result_of_set p set_idx) [ none ↦ false | some r ↦ true ]

-- `rows`
pub record Rows : Type 0 where
  pub result : RowsProvider
  pub current_result_set_index : ℕ
  pub current_row_idx : ℕ

abbrev pub new_rows : RowsProvider → Rows
new_rows p = record { result = p; current_result_set_index = 0; current_row_idx = 0 }

-- io.EOF, a step's error, no result for a step, and a panic: an index out of range or a failed type
-- assertion.
pub data RowsError : Type 0 where
  at_eof : RowsError
  failed_statement : Text → RowsError
  no_results : RowsError
  row_panic : RowsError

unfoldable pub has_next_result_set : Rows → Bool
unfolding sets_count
has_next_result_set r = ltb r.current_result_set_index (sets_count r.result - 1)

-- What `NextResultSet` returns, and the cursor behind it.
unfoldable pub next_result_set : Rows → Option RowsError × Rows
unfolding has_next_result_set error_of_set has_result
next_result_set r =
    if not (has_next_result_set r)
    then (some at_eof, r)
    else (let set_idx = r.current_result_set_index + 1 in
        let moved : Rows = record r { current_result_set_index = set_idx; current_row_idx = 0 } in
        if not (is_empty (error_of_set r.result set_idx))
        then (some (failed_statement (error_of_set r.result set_idx)), moved)
        else if not (has_result r.result set_idx)
        then (some no_results, moved)
        else (none, moved))

module _ (clock : Clock) where
  open clock use {Time}

  -- `p.r.Rows[rowIdx][colIdx].ToValue(p.r.Cols[colIdx].Type)`; `none` is a panic.
  abbrev pub unless_panic : Read clock → Option (GoValue Time)
  unless_panic (value v) = some v
  unless_panic panic = none

  unfoldable pub cell : StmtResult → ℕ → ℕ → Option (GoValue Time)
  unfolding from_value
  cell r row_idx col_idx = elim (get_elem? r.rows row_idx) [
    | none ↦ none
    | some row ↦ elim (get_elem? row col_idx) [
      | none ↦ none
      | some v ↦ elim (get_elem? r.cols col_idx) [
        | none ↦ none
        | some c ↦ unless_panic (from_value clock c.decltype v)
      ]
    ]
  ]

  -- `FieldValue`: a nil value where the set has no result.
  unfoldable pub field_value : RowsProvider → ℕ → ℕ → ℕ → Option (GoValue Time)
  unfolding cell result_of_set
  field_value p set_idx row_idx col_idx = elim (result_of_set p set_idx) [
    | none ↦ some nil
    | some r ↦ cell r row_idx col_idx
  ]

  -- The loop of `Next` over the columns from `idx`, `n` of them: what it stores into `dest`.
  unfoldable pub fields_loop : Rows → ℕ → ℕ → Option (List (GoValue Time))
  unfolding field_value
  fields_loop r zero idx = some []
  fields_loop r (suc n) idx =
      elim (field_value r.result r.current_result_set_index r.current_row_idx idx) [
        | none ↦ none
        | some v ↦ elim (fields_loop r n (suc idx)) [ none ↦ none | some vs ↦ some (v ∷ vs) ]
      ]

  -- `Next`: the fields of the row, and the cursor behind it.
  unfoldable pub next_row : Rows → Result RowsError (List (GoValue Time) × Rows)
  unfolding fields_loop rows_count columns
  next_row r =
      if r.current_row_idx == rows_count r.result r.current_result_set_index
      then err at_eof
      else elim (fields_loop r (length (columns r.result r.current_result_set_index)) 0) [
        | none ↦ err row_panic
        | some vs ↦ ok (vs, record r { current_row_idx = suc r.current_row_idx })
      ]
