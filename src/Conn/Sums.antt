-- ===== src/Conn/Sums.antt =====
-- What `ExecContext` reports of a batch: the changes of all its statements and their last row id.
use libsql_client_go.Base.{
  ℕ, ◌+◌, ◌-◌, ◌^◌, ◌<◌, ◌≡◌, refl, ap, inl, inr, some, List, [], ◌∷◌, ◌++◌, map, if◌then◌else◌,
  length, length-append, take, Bool-cases, arith,
}
use libsql_client_go.Base.Results.{ok}
use libsql_client_go.Base.Decimal.{ℤ, pos, negsuc, add_int64, wrap_int64, is_positive}
use libsql_client_go.Hrana.Response.{StmtResult, get_last_insert_row_id}
use libsql_client_go.Conn.Driver.{sum_results, without_last}

-- The rows that a statement changed.
abbrev count_of : ℤ → ℕ
count_of (pos n) = n
count_of (negsuc n) = 0

unfoldable pub total : List StmtResult → ℕ
total [] = 0
total (r ∷ rs) = count_of r.affected_row_count + total rs

-- No statement reports a negative count.
abbrev IsCount : ℤ → Type 0
IsCount (pos n) = Unit {0}
IsCount (negsuc n) = ⊥

abbrev pub AllCounts : List StmtResult → Type 0
AllCounts [] = Unit {0}
AllCounts (r ∷ rs) = IsCount r.affected_row_count × AllCounts rs

-- The row ids above zero that the statements report, in order.
unfoldable pub row_ids : List StmtResult → List ℤ
row_ids [] = []
row_ids (r ∷ rs) =
    let rest = row_ids rs in
    if is_positive (get_last_insert_row_id r) then get_last_insert_row_id r ∷ rest else rest

-- The last of a list, or else a default.
unfoldable pub last_or {ℓ} : {A : Type ℓ} → A → List A → A
last_or d [] = d
last_or d (x ∷ xs) = last_or x xs

add_int64-pos : (m n : ℕ) → m + n < 2 ^ 63 → add_int64 (pos m) (pos n) ≡ pos (m + n)
unfolding wrap_int64
add_int64-pos m n h = ground arith

add_int64-count :
    (m : ℕ) (i : ℤ)
    → IsCount i
    → m + count_of i < 2 ^ 63
    → add_int64 (pos m) i ≡ pos (m + count_of i)
add_int64-count m (pos n) c h = add_int64-pos m n h
add_int64-count m (negsuc n) c h = absurd c

pub sum_results-map :
    (rs : List StmtResult) (i : ℤ) (m : ℕ)
    → AllCounts rs
    → m + total rs < 2 ^ 63
    → sum_results (map some rs) (record { id = i; changes = pos m })
      ≡ ok (record { id = last_or i (row_ids rs); changes = pos (m + total rs) })
unfolding sum_results total row_ids last_or
sum_results-map [] i m c h = ap (λ (n : ℕ). ok (record { id = i; changes = pos n })) (omega arith)
sum_results-map (r ∷ rs) i m c h =
    let n = count_of r.affected_row_count in
    let here = add_int64-count m r.affected_row_count c.0 (omega arith) in
    let both : m + n + total rs ≡ m + (n + total rs) = omega arith in
    elim (Bool-cases (is_positive (get_last_insert_row_id r))) [
      | inl p ↦
          rw
            (
              sum_results,
              p,
              here,
              sum_results-map rs (get_last_insert_row_id r) (m + n) c.1 (omega arith),
              both,
            )
            refl
      | inr p ↦ rw (sum_results, p, here, sum_results-map rs i (m + n) c.1 (omega arith), both) refl
    ]

take-front {ℓ} : {A : Type ℓ} (xs ys : List A) → take (length xs) (xs ++ ys) ≡ xs
take-front [] [] = refl
take-front [] (y ∷ ys) = refl
take-front (x ∷ xs) ys = ap (λ zs. x ∷ zs) (take-front xs ys)

pub without_last-append {ℓ} :
    {A : Type ℓ} (xs : List A) (y : A) → without_last (xs ++ (y ∷ [])) ≡ xs
without_last-append xs y =
    let size : length (xs ++ (y ∷ [])) - 1 ≡ length xs = omega (arith, length-append xs (y ∷ [])) in
    rw size (take-front xs (y ∷ []))
