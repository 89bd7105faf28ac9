-- ===== src/Conn/Tests.antt =====
-- Connections on concrete inputs. The toy server answers every request alike.
use libsql_client_go.Conn.Driver.{exec_context, reset_session}
use libsql_client_go.Conn.Trips.{Trip, exec_context-Trip}
use libsql_client_go.Conn.Sessions.{Handed, close_of, resets, resets-Handed}
use libsql_client_go.Hrana.Value.{Value, Payload}
use libsql_client_go.Base.Decimal.{pos}
use libsql_client_go.Hrana.Response.{StmtResult, BatchResult}
use libsql_client_go.Conn.Rows.{of_batch, result_of_set}
use libsql_client_go.Conn.Rows.Cursor.{at, table, read_rows, read_rows-table}
use libsql_client_go.Conn.Streams.{Settled, send-Settled}
use libsql_client_go.Base.{ℕ, ◌≤◌, ◌≡◌, refl, true, false, none, some, [], ◌∷◌, ◌++◌, map, arith}
use mathlib.Core.Logic.{◌↔◌}
use libsql_client_go.Base.Texts.{Text, codes, text_eq, to_lower}
use libsql_client_go.Base.Results.{ok, err}
use libsql_client_go.Tokens.{Token, eof, other}
use libsql_client_go.Hrana.Value.{Clock}
use libsql_client_go.Hrana.Json.{Json, null, str, arr, obj, nil, cons, end, field, number}
use libsql_client_go.Hrana.Request.{
  PipelineRequest, StreamRequest, stmt_of, execute_request, add_request,
}
use libsql_client_go.Hrana.Json.{
  as_object, as_text, as_items, each, as_pointer, find, as_int32, as_text_pointer,
}
use libsql_client_go.Hrana.Response.{
  as_pipeline_response, as_hrana_error, as_stmt_result, as_replication_index, execute_result,
  as_stream_response,
}
use libsql_client_go.Base.Decimal.{parse_uint, parse_below}
use libsql_client_go.Hrana.Response.{PipelineResponse, StreamResult}
use libsql_client_go.Conn.World.{Env, Conn, World, answered, HttpRequest, is_bad_conn, panicked}
use libsql_client_go.Conn.Replies.{
  index_panics, index_of, read_fault, server_error, hrana_fault, response_index,
}
use libsql_client_go.Conn.Send.{send, prepare, http_request, request_headers_of}
use libsql_client_go.Conn.Runs.{after_calls}
use libsql_client_go.Conn.Indexes.{asked_index, message_of-reads_own_writes}
use libsql_client_go.Conn.Execute.{message_of}
use libsql_client_go.Conn.Chunks.{empty_message, close_stream_of}
use libsql_client_go.Conn.Faults.{Expired, read_fault-Expired}

abbrev pub toy_clock : Clock
toy_clock = record { Time = Text; format = λ layout t. t; parse = λ layout s. some s }

abbrev pub end_of_text : Token
end_of_text = record { kind = eof; channel = 0; start = 0; stop = 0; text = [] }

abbrev pub one_token : Token
one_token = record { kind = other 0; channel = 0; start = 0; stop = 7; text = codes "SELECT 1" }

abbrev pub toy_env : Json → Env
toy_env j = record {
  clock = toy_clock;
  numbers = record { float_of = λ s. 0; uint64_of = λ s. 0 };
  parse_json = λ body. some j;
  marshals = λ msg. true;
  join_path = λ base path. some (base ++ path);
  commit_hash = codes "unknown";
  tokens = λ sql. one_token ∷ [];
  end_token = λ sql. end_of_text;
  get_text = λ sql i k. sql;
}

abbrev pub open_conn : Conn
open_conn = record {
  url = codes "http://db";
  jwt = [];
  host = [];
  schema_db = false;
  remote_encryption_key = [];
  request_headers = [];
  baton = [];
  stream_closed = false;
  replication_index = 0;
}

abbrev pub world_of : Conn → World
world_of c = record { conn = c; sent = []; replies = answered 200 (codes "{}") ∷ []; spawned = [] }

abbrev statement : PipelineRequest
statement = record {
  baton = [];
  requests =
      record {
        kind = codes "execute";
        stmt = some (stmt_of (codes "SELECT 1") true);
        batch = none;
        sql = none;
        sql_id = none;
      }
      ∷ [];
}

-- {"baton": "b", "results": [{"response": {"type": "execute", "result": {"replication_index": "7"}}}]}
abbrev result_json : Json
result_json = obj (field (codes "replication_index") (str (codes "7")) end)

abbrev response_json : Json
response_json =
    obj (field (codes "type") (str (codes "execute")) (field (codes "result") result_json end))

abbrev answer_json : Json
answer_json = obj (
    field (codes "baton") (str (codes "b")) (
      field (codes "results") (arr (cons (obj (field (codes "response") response_json end)) nil))
        end))

abbrev result_of : StreamResult
result_of = record {
  kind = [];
  response = some (record { kind = codes "execute"; result = some result_json });
  error = none;
}

abbrev answer : PipelineResponse
answer = record { baton = codes "b"; base_url = []; results = result_of ∷ [] }

abbrev moved : Conn
moved = record open_conn { baton = codes "b"; replication_index = 7 }

abbrev first_request : HttpRequest
first_request = record {
  url = codes "http://db" ++ codes "/v2/pipeline";
  host = [];
  headers = (codes "x-libsql-client-version", codes "libsql-remote-go-unknown") ∷ [];
  message = statement;
}

abbrev answered_world : World
answered_world = record { conn = moved; sent = first_request ∷ []; replies = []; spawned = [] }

first_call :
    send (toy_env answer_json) statement false (world_of open_conn) ≡ (ok answer, answered_world)
unfolding send as_pipeline_response as_object as_text as_items each as_pointer find as_stmt_result
    as_replication_index execute_result text_eq to_lower parse_uint as_int32 as_text_pointer
    as_stream_response http_request request_headers_of response_index parse_below
first_call = refl

-- A result that is null: {"baton": "b", "results": [{"response": {"type": "execute", "result": null}}]}
abbrev null_response : Json
null_response = obj (field (codes "type") (str (codes "execute")) (field (codes "result") null end))

abbrev null_json : Json
null_json = obj (
    field (codes "baton") (str (codes "b")) (
      field (codes "results") (arr (cons (obj (field (codes "response") null_response end)) nil))
        end))

null_call : (send (toy_env null_json) statement false (world_of open_conn)).0 ≡ err panicked
unfolding send as_pipeline_response as_object as_text as_items each as_pointer find as_stmt_result
    execute_result text_eq as_stream_response index_panics to_lower
null_call = refl

first_index : index_of (toy_env answer_json) result_of ≡ some 7
unfolding response_index execute_result as_stmt_result as_replication_index as_object
    as_text_pointer as_int32 as_items each find text_eq to_lower parse_uint parse_below
first_index = refl

abbrev later_request : StreamRequest
later_request = execute_request (stmt_of (codes "SELECT 2") true)

later_message :
    message_of (toy_env answer_json) false (codes "SELECT 2" ∷ []) [] true ≡ ok later_request
unfolding message_of
later_message = refl

message_of-reads_own_writes_example :
    (j : ℕ) × (7 ≤ j)
    × (map asked_index
          (prepare
            (after_calls (toy_env answer_json) ((statement, false) ∷ []) answered_world).conn
            (add_request empty_message later_request)).requests
        ≡ some j ∷ [])
message_of-reads_own_writes_example =
    message_of-reads_own_writes (toy_env answer_json) statement false (world_of open_conn)
      answered_world answer first_call 0 result_of 7 refl first_index (omega arith)
      ((statement, false) ∷ []) false true (codes "SELECT 2" ∷ []) [] later_request later_message

abbrev expired_json : Json → Json
expired_json e = obj (
    field (codes "error") e (
      field (codes "message") (str (codes "gone"))
        (field (codes "code") (str (codes "STREAM_EXPIRED")) end)))

-- The code STREAM_EXPIRED is seen only beside an `error` that is not a text.
number_error :
    is_bad_conn (read_fault (toy_env (expired_json (number (codes "1")))) 404 (codes "{}")) ≡ true
unfolding read_fault server_error as_object as_text as_text_pointer find text_eq to_lower
    hrana_fault as_hrana_error
number_error = refl

no_error : is_bad_conn (read_fault (toy_env (expired_json null)) 404 (codes "{}")) ≡ false
unfolding read_fault server_error as_object as_text as_text_pointer find text_eq to_lower
    hrana_fault as_hrana_error
no_error = refl

read_fault-Expired_example :
    let env = toy_env (expired_json (number (codes "1"))) in
    (is_bad_conn (read_fault env 404 (codes "{}")) ≡ true) ↔ Expired env (codes "{}")
read_fault-Expired_example =
    read_fault-Expired (toy_env (expired_json (number (codes "1")))) 404 (codes "{}")

send-Settled_example :
    Settled open_conn (send (toy_env answer_json) statement false (world_of open_conn))
send-Settled_example = send-Settled (toy_env answer_json) statement (world_of open_conn) refl

abbrev number_value : Text → Value
number_value s = record { kind = codes "integer"; value = Payload.str s; base64 = none }

abbrev one_row : StmtResult
one_row = record {
  cols = record { name = some (codes "n"); decltype = none } ∷ [];
  rows = (number_value (codes "1") ∷ []) ∷ [];
  affected_row_count = pos 0;
  last_insert_row_id = none;
  replication_index = none;
}

-- The second step of a batch has the row.
abbrev two_sets : BatchResult
two_sets = record {
  step_results = none ∷ some one_row ∷ [];
  step_errors = [];
  replication_index = none;
}

read_rows-table_example :
    read_rows toy_clock 2 (at toy_clock (of_batch two_sets) 1 0)
    ≡ (let t = table toy_clock one_row.cols one_row.rows in (t.0, some t.1))
unfolding result_of_set
read_rows-table_example = read_rows-table toy_clock (of_batch two_sets) 1 one_row refl

exec_context-Trip_example :
    Trip
      (world_of open_conn)
      (exec_context (toy_env answer_json) (codes "SELECT 1") [] (world_of open_conn)).1
exec_context-Trip_example =
    exec_context-Trip (toy_env answer_json) (codes "SELECT 1") [] (world_of open_conn) (omega arith)

abbrev with_stream : World
with_stream = world_of (record open_conn { baton = codes "b" })

resets-Handed_example :
    Handed (toy_env null) with_stream (resets (toy_env null) 2 with_stream)
    × ((prepare (resets (toy_env null) 2 with_stream).conn statement).baton ≡ statement.baton)
resets-Handed_example = resets-Handed (toy_env null) 1 with_stream statement

one_is_closed :
    map (λ (r : HttpRequest). r.message) (resets (toy_env null) 2 with_stream).spawned
    ≡ close_of (codes "b") ∷ []
unfolding resets reset_session close_stream_of http_request
one_is_closed = refl
