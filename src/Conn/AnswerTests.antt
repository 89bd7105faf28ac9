-- ===== src/Conn/AnswerTests.antt =====
-- A script of two statements and a server that answers it.
use libsql_client_go.Base.{
  ℕ, ◌≡◌, refl, ◌^◌, ◌<◌, true, false, Option, none, some, [], ◌∷◌, ◌++◌, arith,
}
use libsql_client_go.Base.Texts.{Text, codes}
use libsql_client_go.Base.Results.{ok}
use libsql_client_go.Base.Decimal.{pos}
use libsql_client_go.Hrana.Batch.{Batch, BatchStep, BatchCondition}
use libsql_client_go.Hrana.Request.{StreamRequest, stmt_of, if_ok, add_rollback, add_request}
use libsql_client_go.Hrana.Response.{StmtResult, BatchResult, first_error}
use libsql_client_go.Hrana.Response.Wire.{IsStmtResult, IsBatchResult, write_pipeline_response}
use libsql_client_go.Tokenizer.{get, consume}
use libsql_client_go.Splitter.{split_statement, next, create_statement_iterator, turn}
use libsql_client_go.Params.{parse_statement_and_args}
use libsql_client_go.Hrana.Response.Tests.{
  toy_numbers, toy_server, toy_server-Ignored, toy_server-ReadsFloats,
}
use libsql_client_go.Conn.World.{Env, HttpRequest}
use libsql_client_go.Conn.Send.{prepare, http_request}
use libsql_client_go.Conn.Chunks.{empty_message}
use libsql_client_go.Conn.Execute.{parse, message_of}
use libsql_client_go.Conn.Driver.{exec_context}
use libsql_client_go.Conn.Answers.{answer_of, behind, exec_context-batch}
use libsql_client_go.Conn.Sums.{last_or, row_ids, total}
use libsql_client_go.Conn.Tests.{toy_env, open_conn, world_of}
use libsql_client_go.Conn.ScriptTests.{span, two_statements, the_end}

abbrev changed : ℕ → StmtResult
changed n = record {
  cols = [];
  rows = [];
  affected_row_count = pos n;
  last_insert_row_id = some (codes "7");
  replication_index = some 12;
}

abbrev both_ran : BatchResult
both_ran = record {
  step_results = some (changed 2) ∷ some (changed 3) ∷ none ∷ [];
  step_errors = none ∷ none ∷ none ∷ [];
  replication_index = some 12;
}

changed-IsStmtResult : (n : ℕ) → n < 2 ^ 31 → IsStmtResult (changed n)
changed-IsStmtResult n h = record { values = tt; affected = h; index = omega arith }

both_ran-IsBatchResult : IsBatchResult both_ran
both_ran-IsBatchResult = record {
  results =
      (changed-IsStmtResult 2 (omega arith), (changed-IsStmtResult 3 (omega arith), (tt, tt)));
  index = omega arith;
}

abbrev answering_env : Env
answering_env =
    record (toy_env
      (write_pipeline_response toy_server (answer_of toy_server (codes "b") [] both_ran))) {
        numbers = toy_numbers;
        tokens = λ sql. two_statements;
        end_token = λ sql. the_end;
        get_text = λ sql. span;
      }

abbrev step : Text → Option BatchCondition → BatchStep
step sql c = record { stmt = stmt_of sql false; condition = c }

abbrev two_steps : Batch
two_steps = add_rollback true 2 (record {
  steps = step (span 0 0) none ∷ step (span 2 2) (some (if_ok (pos 0))) ∷ [];
  replication_index = none;
})

abbrev two_request : StreamRequest
two_request = record {
  kind = codes "batch";
  stmt = none;
  batch = some two_steps;
  sql = none;
  sql_id = none;
}

two_statements_parse : parse answering_env (codes "x;y") [] ≡ ok (span 0 0 ∷ span 2 2 ∷ [], [])
unfolding parse split_statement get turn consume next create_statement_iterator
    parse_statement_and_args
two_statements_parse = refl

two_statements_batch :
    message_of answering_env false (span 0 0 ∷ span 2 2 ∷ []) [] false ≡ ok two_request
unfolding message_of
two_statements_batch = refl

abbrev batch_http : HttpRequest
batch_http = record {
  url = codes "http://db" ++ codes "/v2/pipeline";
  host = [];
  headers = (codes "x-libsql-client-version", codes "libsql-remote-go-unknown") ∷ [];
  message = add_request empty_message two_request;
}

it_goes_out :
    http_request answering_env open_conn (prepare open_conn (add_request empty_message two_request))
    ≡ some batch_http
unfolding http_request prepare
it_goes_out = refl

exec_context-batch_example : exec_context answering_env (codes "x;y") [] (world_of open_conn) ≡ (
  ok (record {
    id = last_or (pos 0) (row_ids (changed 2 ∷ changed 3 ∷ []));
    changes = pos (total (changed 2 ∷ changed 3 ∷ []));
  }),
  behind answering_env
      (world_of open_conn)
      batch_http
      []
      (answer_of toy_server (codes "b") [] both_ran),
)
unfolding first_error total
exec_context-batch_example =
    exec_context-batch answering_env toy_server (codes "x;y") [] (world_of open_conn)
      (span 0 0 ∷ span 2 2 ∷ []) [] two_request batch_http (codes "{}") [] (codes "b") [] both_ran
      (changed 2 ∷ changed 3 ∷ []) none toy_server-Ignored toy_server-ReadsFloats (omega arith)
      two_statements_parse two_statements_batch refl it_goes_out refl refl both_ran-IsBatchResult
      refl refl (tt, (tt, tt)) (omega arith)
