-- ===== src/Conn/Rows/Tests.antt =====
-- The sets of a batch whose third step fails.
use libsql_client_go.Base.{◌≡◌, refl, none, some, [], ◌∷◌, ◌+◌, map, drop, length}
use libsql_client_go.Base.Texts.{codes}
use libsql_client_go.Base.Decimal.{pos}
use libsql_client_go.Hrana.Response.{StmtResult, BatchResult}
use libsql_client_go.Conn.Rows.{failed_statement, new_rows, of_batch}
use libsql_client_go.Conn.Rows.Sets.{good_sets, read_sets, read_sets-good}

abbrev no_rows : StmtResult
no_rows = record {
  cols = [];
  rows = [];
  affected_row_count = pos 1;
  last_insert_row_id = none;
  replication_index = none;
}

abbrev third_fails : BatchResult
third_fails = record {
  step_results = some no_rows ∷ some no_rows ∷ none ∷ [];
  step_errors = none ∷ none ∷ some record { message = codes "no such table"; code = none } ∷ [];
  replication_index = none;
}

the_second_is_reached :
    good_sets (drop 1 third_fails.step_errors) (drop 1 third_fails.step_results)
    ≡ (no_rows ∷ [], failed_statement (codes "no such table"))
unfolding good_sets
the_second_is_reached = refl

read_sets-good_example :
    read_sets (length third_fails.step_results + 1) (new_rows (of_batch third_fails)) ≡ (
      let good = good_sets (drop 1 third_fails.step_errors) (drop 1 third_fails.step_results) in
      (map some good.0, some good.1))
read_sets-good_example = read_sets-good third_fails
