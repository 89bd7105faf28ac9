-- ===== src/Ws/Driver.antt =====
-- libsql/internal/ws/driver.go: what database/sql calls. The methods without a context call those
-- with one, and `Prepare` only stores the text.
use libsql_client_go.Base.{ℕ, zero, suc, true, false, List, [], ◌∷◌, map, leb, ◌==◌, if◌then◌else◌}
use libsql_client_go.Base.Texts.{Text, codes, is_empty}
use libsql_client_go.Base.Results.{Result, ok, err, ◌>>=◌}
use libsql_client_go.Base.Decimal.{ℤ}
use libsql_client_go.Values.{GoValue, NamedValue}
use libsql_client_go.Params.{sort_args}
use libsql_client_go.Ws.Dynamic.{Members, index_panic}
use libsql_client_go.Ws.Socket.{Fault, panicked, or_panic}
use libsql_client_go.Ws.Exec.{WebsocketConn, Params, exec}
use libsql_client_go.Ws.Response.{affected_row_count, last_insert_id, rows_count, row_len, value}

-- `result`
pub record ExecResult : Type 0 where
  pub id : ℤ
  pub changes : ℤ

-- `rows`
pub record Rows : Type 0 where
  pub res : Members
  pub current_row_idx : ℕ

pub data RowsError : Type 0 where
  at_eof : RowsError
  failed : Fault → RowsError

abbrev pub or_failed {ℓ} : {A : Type ℓ} → Result Fault A → Result RowsError A
or_failed (ok a) = ok a
or_failed (err f) = err (failed f)

-- A method of `conn`: the pool's map begins its walk at `walk`.
abbrev pub Call {ℓ} : Type ℓ → Type ℓ
Call A = WebsocketConn → Result Fault A × WebsocketConn

abbrev pub result_of_exec : ℤ → Members → Result Fault ExecResult
result_of_exec outside res = or_panic (affected_row_count outside res) >>= λ n.
    ok (record { id = last_insert_id res; changes = n })

module _ {Time : Type 0} where
  -- The two lists that the loop of `convertArgs` fills.
  unfoldable pub split_args :
      List (NamedValue Time) → List (NamedValue Time) × List (Text × GoValue Time)
  split_args [] = ([], [])
  split_args (a ∷ args) =
      let rest = split_args args in
      if is_empty a.name then (a ∷ rest.0, rest.1) else (rest.0, (a.name, a.value) ∷ rest.1)

  abbrev pub value_of_arg : NamedValue Time → GoValue Time
  value_of_arg a = a.value

  unfoldable pub convert_args : List (NamedValue Time) → Params Time
  unfolding split_args sort_args
  convert_args args =
      let split = split_args args in
      record { positional_args = map value_of_arg (sort_args split.0); named_args = split.1 }

  -- The loop of `convertToNamed`, from an ordinal on.
  unfoldable pub number_args : ℕ → List (GoValue Time) → List (NamedValue Time)
  number_args idx [] = []
  number_args idx (v ∷ vs) =
      record { name = []; ordinal = idx; value = v } ∷ number_args (suc idx) vs

  abbrev pub convert_to_named : List (GoValue Time) → List (NamedValue Time)
  convert_to_named vs = number_args 0 vs

  -- The loop of `Next`: `n` columns from `idx` on, into a row of `capacity` values.
  unfoldable pub fields_loop : Members → ℕ → ℕ → ℕ → ℕ → Result Fault (List (GoValue Time))
  unfolding value
  fields_loop res row_idx capacity zero idx = ok []
  fields_loop res row_idx capacity (suc n) idx = value res row_idx idx >>= λ v.
      (if leb capacity idx then err (panicked index_panic) else ok v) >>= λ v.
      fields_loop res row_idx capacity n (suc idx) >>= λ vs. ok (v ∷ vs)

  unfoldable pub next_fields : Rows → ℕ → Result Fault (List (GoValue Time))
  unfolding row_len fields_loop
  next_fields r capacity = or_panic (row_len r.res r.current_row_idx) >>= λ n.
      fields_loop r.res r.current_row_idx capacity n 0

  -- `Next`: the row, and the cursor behind it.
  unfoldable pub next_row : ℕ → Rows → Result RowsError (List (GoValue Time) × Rows)
  unfolding next_fields rows_count
  next_row capacity r = or_failed (or_panic (rows_count r.res)) >>= λ n.
      if r.current_row_idx == n
      then err at_eof
      else or_failed (next_fields r capacity) >>= λ vs.
          ok (vs, record r { current_row_idx = suc r.current_row_idx })

  unfoldable pub exec_context : ℤ → ℕ → Text → List (NamedValue Time) → Call ExecResult
  unfolding exec convert_args affected_row_count last_insert_id
  exec_context outside walk query args c =
      let r = exec walk c query (convert_args args) false in (r.0 >>= result_of_exec outside, r.1)

  unfoldable pub query_context : ℕ → Text → List (NamedValue Time) → Call Rows
  unfolding exec convert_args
  query_context walk query args c =
      let r = exec walk c query (convert_args args) true in
      (r.0 >>= λ res. ok (record { res = res; current_row_idx = 0 }), r.1)

  -- `Exec` and `Query` of a prepared statement, which is its text.
  abbrev pub stmt_exec : ℤ → ℕ → Text → List (GoValue Time) → Call ExecResult
  stmt_exec outside walk query vs = exec_context outside walk query (convert_to_named vs)

  abbrev pub stmt_query : ℕ → Text → List (GoValue Time) → Call Rows
  stmt_query walk query vs = query_context walk query (convert_to_named vs)

-- The calls without arguments, of any type of times.
-- `Ping`
unfoldable pub ping : ℕ → Call {0} Unit
unfolding exec
ping walk c =
    let r =
      exec {Time = Text} walk c (codes "SELECT 1")
        (record { positional_args = []; named_args = [] }) false in
    (r.0 >>= λ res. ok tt, r.1)

-- The statement of `BeginTx`, `Commit` and `Rollback`.
unfoldable pub run_text : ℤ → ℕ → Text → Call {0} Unit
unfolding exec_context
run_text outside walk query c =
    let r = exec_context {Time = Text} outside walk query [] c in (r.0 >>= λ res. ok tt, r.1)

abbrev pub begin_tx : ℤ → ℕ → Call {0} Unit
begin_tx outside walk = run_text outside walk (codes "BEGIN")

abbrev pub commit : ℤ → ℕ → Call {0} Unit
commit outside walk = run_text outside walk (codes "COMMIT")

abbrev pub rollback : ℤ → ℕ → Call {0} Unit
rollback outside walk = run_text outside walk (codes "ROLLBACK")
