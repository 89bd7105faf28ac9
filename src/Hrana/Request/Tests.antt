-- ===== src/Hrana/Request/Tests.antt =====
-- Requests on concrete inputs.
use libsql_client_go.Base.{ℕ, ◌≡◌, refl, Bool, true, false, Option, none, some, [], ◌∷◌, ◌==◌, not}
use libsql_client_go.Base.Texts.{Text, codes}
use libsql_client_go.Base.Results.{ok}
use libsql_client_go.Base.Decimal.{pos, negsuc}
use libsql_client_go.Hrana.Value.{Clock}
use libsql_client_go.Hrana.Batch.{Batch, BatchStep, BatchCondition}
use libsql_client_go.Hrana.Request.{
  StreamRequest, stmt_of, if_ok, if_not, batch_stream, add_rollback,
}
use libsql_client_go.Hrana.Request.Transaction.{
  succeeded, failed, skipped, run, expected, all_work, conditions_of, batch_stream-run,
}

abbrev toy_clock : Clock
toy_clock = record { Time = Text; format = λ layout t. t; parse = λ layout s. some s }

abbrev step : Text → Option BatchCondition → BatchStep
step sql c = record { stmt = stmt_of sql true; condition = c }

abbrev two_steps : Batch
two_steps = add_rollback true 2 (record {
  steps = step (codes "a") none ∷ step (codes "b") (some (if_ok (pos 0))) ∷ [];
  replication_index = none;
})

abbrev two_request : StreamRequest
two_request = record {
  kind = codes "batch";
  stmt = none;
  batch = some two_steps;
  sql = none;
  sql_id = none;
}

two_statements : batch_stream toy_clock (codes "a" ∷ codes "b" ∷ []) [] true true ≡ ok two_request
unfolding batch_stream
two_statements = refl

-- The first statement fails: the second is skipped and the rollback runs.
abbrev all_but_first : ℕ → Bool
all_but_first n = not (n == 0)

batch_stream-run_example :
    run all_but_first [] (conditions_of two_steps) ≡ failed ∷ skipped ∷ succeeded ∷ []
unfolding expected all_work
batch_stream-run_example =
    batch_stream-run toy_clock (codes "a") (codes "b" ∷ []) [] true all_but_first two_request
      two_steps two_statements refl

-- With no statement at all the rollback's condition names the step -1, which is in no batch.
no_statements :
    batch_stream toy_clock [] [] true true
    ≡ ok (record {
      kind = codes "batch";
      stmt = none;
      batch = some (record {
        steps =
            record {
              stmt = stmt_of (codes "ROLLBACK") false;
              condition = some (if_not (if_ok (negsuc 0)));
            }
            ∷ [];
        replication_index = none;
      });
      sql = none;
      sql_id = none;
    })
unfolding batch_stream
no_statements = refl
