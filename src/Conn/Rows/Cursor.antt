-- ===== src/Conn/Rows/Cursor.antt =====
-- Reading a result set to its end.
use libsql_client_go.Base.{
  ℕ, zero, suc, ◌+◌, ◌<◌, ◌≡◌, refl, ap, true, false, Option, none, some, List, [], ◌∷◌, map, ◌==◌,
  length, get_elem?, drop, get_elem?-drop, get_elem?-of_drop, drop-suc, sym, ◌∙◌, arith,
}
use libsql_client_go.Base.Results.{Result, ok, err}
use libsql_client_go.Values.{GoValue}
use libsql_client_go.Hrana.Value.{Clock, Value, from_value}
use libsql_client_go.Hrana.Response.{Column, StmtResult}
use libsql_client_go.Conn.Rows.{
  Rows, RowsError, RowsProvider, unless_panic, row_panic, at_eof, cell, field_value, fields_loop,
  next_row, rows_count, columns, result_of_set, name_of,
}

module _ (clock : Clock) where
  open clock use {Time}

  -- A caller that reads until `Next` fails, `n` times at most, and keeps the rows.
  pub read_rows : ℕ → Rows → List (List (GoValue Time)) × Option RowsError
  read_rows zero r = ([], none)
  read_rows (suc n) r = elim (next_row clock r) [
    | err e ↦ ([], some e)
    | ok (vs, r') ↦ let rest = read_rows n r' in (vs ∷ rest.0, rest.1)
  ]

  -- What a row means: each value read by its column's declared type. It means nothing where a value is
  -- missing or is not of its type.
  unfoldable pub row_values : List Column → List Value → Option (List (GoValue Time))
  row_values [] vs = some []
  row_values (c ∷ cs) [] = none
  row_values (c ∷ cs) (v ∷ vs) = elim (unless_panic clock (from_value clock c.decltype v)) [
    | none ↦ none
    | some g ↦ elim (row_values cs vs) [ none ↦ none | some gs ↦ some (g ∷ gs) ]
  ]

  abbrev prepended :
      Option (GoValue Time) → Option (List (GoValue Time)) → Option (List (GoValue Time))
  prepended o rest = elim o [
    | none ↦ none
    | some g ↦ elim rest [ none ↦ none | some gs ↦ some (g ∷ gs) ]
  ]

  -- The rows up to the first that means nothing, and how they end.
  unfoldable pub table : List Column → List (List Value) → List (List (GoValue Time)) × RowsError
  unfolding row_values
  table cs [] = ([], at_eof)
  table cs (row ∷ rows) =
      let rest = table cs rows in
      elim (row_values cs row) [ none ↦ ([], row_panic) | some gs ↦ (gs ∷ rest.0, rest.1) ]

  abbrev pub at : RowsProvider → ℕ → ℕ → Rows
  at p k i = record { result = p; current_result_set_index = k; current_row_idx = i }

  drop-length {ℓ} : {A : Type ℓ} (n : ℕ) (xs : List A) → n ≡ length xs → drop n xs ≡ []
  drop-length zero [] h = refl
  drop-length zero (x ∷ xs) h = absurd (omega arith)
  drop-length (suc n) [] h = refl
  drop-length (suc n) (x ∷ xs) h = drop-length n xs (omega arith)

  length-map {ℓ κ} :
      {A : Type ℓ} {B : Type κ} (f : A → B) (xs : List A) → length (map f xs) ≡ length xs
  length-map f [] = refl
  length-map f (x ∷ xs) = ap suc (length-map f xs)

  get_elem?-drop_nil {ℓ} :
      {A : Type ℓ} (xs : List A) (i : ℕ) → drop i xs ≡ [] → get_elem? xs i ≡ none
  get_elem?-drop_nil [] i e = refl
  get_elem?-drop_nil (x ∷ xs) zero e = cc
  get_elem?-drop_nil (x ∷ xs) (suc i) e = get_elem?-drop_nil xs i e

  module _ (p : RowsProvider) (k : ℕ) (r : StmtResult) (known : result_of_set p k ≡ some r) where
    fields_loop-drop :
        (i : ℕ) (row : List Value)
        → get_elem? r.rows i ≡ some row
        → (n idx : ℕ) → n + idx ≡ length r.cols
        → fields_loop clock (at p k i) n idx ≡ row_values (drop idx r.cols) (drop idx row)
    unfolding fields_loop field_value cell row_values
    fields_loop-drop i row e zero idx h = rw (drop-length idx r.cols (omega arith)) refl
    fields_loop-drop i row e (suc n) idx h =
        let (c, at_c, drop_c) = get_elem?-drop r.cols idx (omega arith) in
        let rest = fields_loop-drop i row e n (suc idx) (omega arith) in
        by_row (drop idx row) refl c at_c drop_c rest
      where
        by_row :
            (vs : List Value)
            → drop idx row ≡ vs
            → (c : Column) → get_elem? r.cols idx ≡ some c
            → drop idx r.cols ≡ c ∷ drop (suc idx) r.cols
            → fields_loop clock (at p k i) n (suc idx)
              ≡ row_values (drop (suc idx) r.cols) (drop (suc idx) row)
            → fields_loop clock (at p k i) (suc n) idx ≡ row_values (drop idx r.cols) (drop idx row)
        by_row [] d c at_c drop_c rest =
            rw (fields_loop, field_value, known, cell, e, get_elem?-drop_nil row idx d, drop_c, d)
              refl
        by_row (v ∷ vs) d c at_c drop_c rest =
            let later : drop (suc idx) row ≡ vs = sym (drop-suc idx row) ∙ ap (drop 1) d in
            rw
              (
                fields_loop,
                field_value,
                known,
                cell,
                e,
                get_elem?-of_drop idx row v vs d,
                at_c,
                drop_c,
                d,
                row_values,
              )
              (ap (prepended (unless_panic clock (from_value clock c.decltype v)))
                (rest ∙ ap (row_values (drop (suc idx) r.cols)) later))

    next_row-row :
        (i : ℕ) (row : List Value)
        → get_elem? r.rows i ≡ some row
        → i < length r.rows
        → next_row clock (at p k i) ≡ elim (row_values r.cols row) [
          | none ↦ err row_panic
          | some vs ↦ ok (vs, at p k (suc i))
        ]
    unfolding next_row rows_count columns
    next_row-row i row e below =
        let differs : (i == length r.rows) ≡ false = ground arith in
        rw
          (
            next_row,
            rows_count,
            columns,
            known,
            differs,
            length-map name_of r.cols,
            fields_loop-drop i row e (length r.cols) 0 (omega arith),
          )
          refl

    next_row-end : next_row clock (at p k (length r.rows)) ≡ err at_eof
    unfolding next_row rows_count
    next_row-end =
        let same : (length r.rows == length r.rows) ≡ true = ground arith in
        rw (next_row, rows_count, known, same) refl

    read_rows-from :
        (n i : ℕ)
        → n + i ≡ length r.rows
        → read_rows (suc n) (at p k i) ≡ (let t = table r.cols (drop i r.rows) in (t.0, some t.1))
    unfolding read_rows table
    read_rows-from zero i h =
        let at_end : i ≡ length r.rows = omega arith in
        rw (at_end, read_rows, next_row-end, drop-length (length r.rows) r.rows refl) refl
    read_rows-from (suc n) i h =
        let (row, e, more) = get_elem?-drop r.rows i (omega arith) in
        let rest = read_rows-from n (suc i) (omega arith) in
        rw (read_rows, next_row-row i row e (omega arith), more, table)
          (by_values (row_values r.cols row) rest)
      where
        by_values :
            (o : Option (List (GoValue Time)))
            → read_rows (suc n) (at p k (suc i))
              ≡ (let t = table r.cols (drop (suc i) r.rows) in (t.0, some t.1))
            → Path
                (List (List (GoValue Time)) × Option RowsError)
                (elim (elim o as (λ x. Result RowsError (List (GoValue Time) × Rows)) [
                  | none ↦ err row_panic
                  | some vs ↦ ok (vs, at p k (suc i))
                ]) [
                  | err e ↦ ([], some e)
                  | ok (vs, r') ↦ let rest = read_rows (suc n) r' in (vs ∷ rest.0, rest.1)
                ])
                (let t : List (List (GoValue Time)) × RowsError =
                    (let rest = table r.cols (drop (suc i) r.rows) in
                      elim o [ none ↦ ([], row_panic) | some gs ↦ (gs ∷ rest.0, rest.1) ]) in
                  (t.0, some t.1))
        by_values none same = refl
        by_values (some vs) same = ap (λ t. (vs ∷ t.0, t.1)) same

    -- Reading a result set from its first row, of a single statement or of a step of a batch, with one call
    -- of `Next` more than there are rows, gives the rows in order, every value converted by its column's
    -- declared type, and then io.EOF; or up to the first row in which a value is missing or not of its type,
    -- where the program panics.
    pub read_rows-table :
        read_rows (length r.rows + 1) (at p k 0) ≡ (let t = table r.cols r.rows in (t.0, some t.1))
    read_rows-table =
        let more : length r.rows + 1 ≡ suc (length r.rows) = omega arith in
        rw more (read_rows-from (length r.rows) 0 (omega arith))
