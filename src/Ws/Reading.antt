-- ===== src/Ws/Reading.antt =====
-- Reading the rows of a response to their end, and the arguments of prepared statements.
use libsql_client_go.Base.{
  ℕ, zero, suc, ◌+◌, ◌<◌, ◌≤◌, ◌≡◌, refl, true, false, Option, none, some, List, [], ◌∷◌, ◌==◌, leb,
  arith,
}
use libsql_client_go.Base.Results.{ok, err}
use libsql_client_go.Values.{GoValue}
use libsql_client_go.Ws.{read_value}
use libsql_client_go.Ws.Dynamic.{
  Dynamic, obj, arr, Elements, no_element, element, Members, as_elements, as_object, element_at,
  count,
}
use libsql_client_go.Ws.Response.{rows_of, rows_count, row_at, row_len, value, value_of, checked}
use libsql_client_go.Ws.Driver.{Rows, RowsError, at_eof, fields_loop, next_fields, next_row}

-- `element_at` from an index on.
unfoldable pub drop : ℕ → Elements → Elements
drop zero xs = xs
drop (suc i) no_element = no_element
drop (suc i) (element x xs) = drop i xs

element_at-drop :
    (xs : Elements) (i : ℕ) (x : Dynamic) (rest : Elements)
    → drop i xs ≡ element x rest
    → (element_at xs i ≡ ok x) × (drop (suc i) xs ≡ rest)
unfolding drop element_at
element_at-drop no_element zero x rest e = ground arith
element_at-drop no_element (suc i) x rest e = ground arith
element_at-drop (element y ys) zero x rest e = ground arith
element_at-drop (element y ys) (suc i) x rest e = element_at-drop ys i x rest e

count-drop : (xs : Elements) (i n : ℕ) → count xs ≡ i + n → count (drop i xs) ≡ n
unfolding drop count
count-drop xs zero n e = omega (arith, e)
count-drop no_element (suc i) n e = ground arith
count-drop (element y ys) (suc i) n e = count-drop ys i n (omega (arith, e))

abbrev pub row_of : Members → ℕ → Rows
row_of res i = record { res = res; current_row_idx = i }

module _ {Time : Type 0} where
  -- The cells of a row, and the values that they are read as.
  pub data Cells : Elements → List (GoValue Time) → Type 0 where
    no_cell : Cells no_element []
    a_cell :
        {m : Members} {cells : Elements} {v : GoValue Time} {vs : List (GoValue Time)}
        → checked (read_value (value_of m)) ≡ ok v
        → Cells cells vs
        → Cells (element (obj m) cells) (v ∷ vs)

  -- The rows of a response, none longer than the width of the destination.
  pub data Table (width : ℕ) : Elements → List (List (GoValue Time)) → Type 0 where
    no_row : Table width no_element []
    a_row :
        {cells : Elements} {rows : Elements} {vs : List (GoValue Time)}
        {vss : List (List (GoValue Time))}
        → Cells cells vs
        → count cells ≤ width
        → Table width rows vss
        → Table width (element (arr cells) rows) (vs ∷ vss)

  -- A caller that calls `Next` until it gives an error, `n` times at most, and keeps the rows.
  unfoldable pub read_rows : ℕ → ℕ → Rows → List (List (GoValue Time)) × Option RowsError
  unfolding next_row
  read_rows zero width r = ([], none)
  read_rows (suc n) width r = elim (next_row {Time = Time} width r) [
    | err e ↦ ([], some e)
    | ok (vs, r') ↦ let rest = read_rows n width r' in (vs ∷ rest.0, rest.1)
  ]

  fields_loop-Cells :
      (res : Members) (i width : ℕ) (row : Elements) (n idx : ℕ) {rest : Elements}
      {vs : List (GoValue Time)}
      → row_at res i ≡ ok row
      → drop idx row ≡ rest
      → Cells rest vs
      → count rest ≡ n
      → idx + n ≤ width
      → fields_loop res i width n idx ≡ ok vs
  unfolding fields_loop value count as_object
  fields_loop-Cells res i width row zero idx e d no_cell c w = refl
  fields_loop-Cells res i width row (suc n) idx e d no_cell c w = absurd (ground arith)
  fields_loop-Cells res i width row zero idx e d (a_cell h hs) c w = absurd (ground arith)
  fields_loop-Cells res i width row (suc n) idx e d (a_cell h hs) c w =
      let (here, next) = element_at-drop row idx _ _ d in
      let inside : leb width idx ≡ false = ground arith in
      let later =
        fields_loop-Cells res i width row n (suc idx) e next hs (omega (arith, c)) (omega arith) in
      rw (e, here, h, inside, later) refl

  next_row-row :
      (res : Members) (i width : ℕ) (rows cells : Elements) (vs : List (GoValue Time))
      → rows_of res ≡ ok rows
      → element_at rows i ≡ ok (arr cells)
      → i < count rows
      → Cells cells vs
      → count cells ≤ width
      → next_row width (row_of res i) ≡ ok (vs, row_of res (suc i))
  unfolding next_row next_fields rows_count row_len row_at as_elements
  next_row-row res i width rows cells vs e at_i below h w =
      let row : row_at res i ≡ ok cells = rw (e, at_i) refl in
      let start : drop 0 cells ≡ cells = unfold drop in refl in
      let fields =
        fields_loop-Cells res i width cells (count cells) 0 row start h refl (omega (arith, w)) in
      let more : (i == count rows) ≡ false = ground arith in rw (e, at_i, fields) (rw more refl)

  next_row-end :
      (res : Members) (i width : ℕ) (rows : Elements)
      → rows_of res ≡ ok rows
      → i ≡ count rows
      → next_row {Time = Time} width (row_of res i) ≡ err at_eof
  unfolding next_row rows_count
  next_row-end res i width rows e at_end =
      let last : (i == count rows) ≡ true = ground arith in rw e (rw last refl)

  read_rows-from :
      (res : Members) (width : ℕ) (rows : Elements) (n i : ℕ) {rest : Elements}
      {vss : List (List (GoValue Time))}
      → rows_of res ≡ ok rows
      → drop i rows ≡ rest
      → Table width rest vss
      → count rest ≡ n
      → i + n ≡ count rows
      → read_rows (suc n) width (row_of res i) ≡ (vss, some at_eof)
  unfolding read_rows count
  read_rows-from res width rows zero i e d no_row c s =
      rw (next_row-end res i width rows e (omega (arith, s))) refl
  read_rows-from res width rows (suc n) i e d no_row c s = absurd (ground arith)
  read_rows-from res width rows zero i e d (a_row h w t) c s = absurd (ground arith)
  read_rows-from res width rows (suc n) i e d (a_row h w t) c s =
      let (here, next) = element_at-drop rows i _ _ d in
      rw
        (
          read_rows,
          next_row-row res i width rows _ _ e here (omega (arith, s)) h w,
          read_rows-from res width rows n (suc i) e next t (omega (arith, c)) (omega (arith, s)),
        )
        refl

  -- Reading the rows of a response, with one call of `Next` more than there are rows, gives all of
  -- them in order, each with all its values, and then io.EOF, where every value can be read and the
  -- destination is as wide as the widest row.
  pub read_rows-Table :
      (res : Members) (width : ℕ) (rows : Elements) (vss : List (List (GoValue Time)))
      → rows_of res ≡ ok rows
      → Table width rows vss
      → read_rows (suc (count rows)) width (row_of res 0) ≡ (vss, some at_eof)
  unfolding drop
  read_rows-Table res width rows vss e t =
      read_rows-from res width rows (count rows) 0 e refl t refl (omega arith)
