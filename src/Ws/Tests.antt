-- ===== src/Ws/Tests.antt =====
-- The WebSocket client on concrete inputs.
use libsql_client_go.Base.{
  suc, ◌≡◌, ◌≢◌, ◌≤◌, refl, inr, true, false, none, some, [], ◌∷◌, ◌++◌, map, arith,
}
use libsql_client_go.Base.Texts.{Text, codes, text_eq}
use libsql_client_go.Base.Results.{ok, err, ◌>>=◌}
use libsql_client_go.Base.Decimal.{pos, negsuc, format_int}
use libsql_client_go.Values.{GoValue, int64, string}
use libsql_client_go.IdPool.{new_id_pool}
use libsql_client_go.IdPool.Unique.{Tracks, Tracks-new}
use libsql_client_go.Ws.{convert_value, read_value, text_of}
use libsql_client_go.Ws.RoundTrip.{as_stored, echoed, read_value-convert_value}
use libsql_client_go.Ws.Dynamic.{
  Dynamic, nil, str, number, arr, obj, Elements, no_element, element, Members, no_member, member,
  find, at, count, as_elements, is_text, assertion_panic,
}
use libsql_client_go.Ws.Socket.{Stmt, hello, request, open_stream, Socket, panicked, pool_panic}
use libsql_client_go.Ws.Exec.{
  WebsocketConn, Params, build_stmt, convert_args, convert_named_args, exec, answer,
}
use libsql_client_go.Ws.Connect.{connect, handshake}
use libsql_client_go.Ws.Response.{rows_of, value_of, checked}
use libsql_client_go.Ws.Driver.{result_of_exec, at_eof, stmt_exec}
use libsql_client_go.Ws.Pool.{Sent, exec-Tracks}
use libsql_client_go.Ws.Handshake.{Settled, handshake-Settled, connect-refused}
use libsql_client_go.Ws.Calls.{
  Query, Builds, no_call, a_call, Delivers, exec_all, stmts_of, exec_all-answers,
}
use libsql_client_go.Ws.Numbers.{IsFloatOf, result_of_exec-exact}
use libsql_client_go.Ws.Reading.{
  no_cell, a_cell, Table, no_row, a_row, read_rows, read_rows-Table, row_of,
}
use libsql_client_go.Ws.Args.{all_positional, stmt_exec-exec}

abbrev minus_forty_two : GoValue Text
minus_forty_two = int64 (negsuc 41)

read_value-convert_value_example :
    echoed {Time = Text} (convert_value minus_forty_two) ≡ ok (ok (as_stored minus_forty_two))
read_value-convert_value_example = read_value-convert_value minus_forty_two (omega arith)

-- What a server sends: an answer with one row of one text, and a refusal.
abbrev text_cell : Members
text_cell =
    member (codes "type") (str (codes "text")) (member (codes "value") (str (codes "x")) no_member)

abbrev one_row : Elements
one_row = element (arr (element (obj text_cell) no_element)) no_element

abbrev outcome : Members
outcome = member (codes "rows") (arr one_row) (
    member (codes "last_insert_rowid") (str (codes "7"))
      (member (codes "affected_row_count") (number 4611686018427387904) no_member))

abbrev good_answer : Dynamic
good_answer = obj (
    member (codes "type") (str (codes "response_ok"))
      (member (codes "response") (obj (member (codes "result") (obj outcome) no_member)) no_member))

abbrev hello_ok : Members
hello_ok = member (codes "type") (str (codes "hello_ok")) no_member

abbrev refusal : Members
refusal =
    member (codes "type") (str (codes "response_error")) (
      member (codes "error") (obj (member (codes "message") (str (codes "no")) no_member))
        no_member)

abbrev dialled : Socket
dialled = record {
  written = [];
  writes = true ∷ (true ∷ []);
  reads = some (obj hello_ok) ∷ (some (obj refusal) ∷ []);
  closed = none;
}

abbrev open_conn : WebsocketConn
open_conn = record {
  socket = record {
    written = [];
    writes = true ∷ [];
    reads = some good_answer ∷ [];
    closed = none;
  };
  id_pool = new_id_pool;
}

abbrev no_params : Params Text
no_params = record { positional_args = []; named_args = [] }

exec-Tracks_example :
    let (r, after) = exec 0 open_conn (codes "SELECT 1") no_params true in
    (r ≢ err pool_panic)
    × Tracks [] after.id_pool
    × Sent [] (build_stmt (codes "SELECT 1") no_params true) open_conn.socket after.socket
exec-Tracks_example =
    exec-Tracks [] open_conn 0 (codes "SELECT 1") no_params true Tracks-new (omega arith)

handshake-Settled_example :
    let r = handshake (codes "token") dialled in
    Settled (hello (codes "token") ∷ (request 0 (open_stream 0) ∷ [])) dialled r.0 r.1
handshake-Settled_example = handshake-Settled (codes "token") dialled refl

connect-refused_example :
    (connect (some dialled) (codes "token")).0 ≡ err (panicked assertion_panic)
connect-refused_example =
    connect-refused (codes "token") dialled hello_ok refusal [] [] refl refl greeted no_error
      refused
  where
    greeted : is_text (at (codes "type") hello_ok) (codes "hello_error") ≡ false
    greeted = unfold is_text at find text_eq in refl

    no_error : at (codes "error") hello_ok ≡ nil
    no_error = unfold at find text_eq in refl

    refused : is_text (at (codes "type") refusal) (codes "response_error") ≡ true
    refused = unfold is_text at find text_eq in refl

abbrev select_one : Query Text
select_one = record { walk = 0; sql = codes "SELECT 1"; params = no_params; want_rows = true }

abbrev sent_stmt : Stmt
sent_stmt = record { sql = codes "SELECT 1"; want_rows = true; args = none; named_args = none }

select_one-Builds : Builds (select_one ∷ []) (sent_stmt ∷ [])
unfolding build_stmt convert_args convert_named_args
select_one-Builds = a_call refl no_call

exec_all-answers_example :
    let (rs, after) = exec_all (select_one ∷ []) open_conn in
    (rs ≡ map answer (good_answer ∷ []))
    × (stmts_of after.socket.written ≡ stmts_of open_conn.socket.written ++ (sent_stmt ∷ []))
    × (after.socket.reads ≡ [])
    × Tracks [] after.id_pool
unfolding Delivers
exec_all-answers_example =
    exec_all-answers (select_one ∷ []) (sent_stmt ∷ []) (good_answer ∷ []) [] [] open_conn
      select_one-Builds refl Tracks-new (omega arith) (([], refl), refl)

result_of_exec-exact_example :
    result_of_exec (pos 0) outcome ≡ ok (record { id = pos 7; changes = pos 2 })
result_of_exec-exact_example =
    result_of_exec-exact (pos 0) outcome (pos 7) 2 4611686018427387904 (omega arith) (omega arith)
      two id_at count_at
  where
    two : IsFloatOf 2 4611686018427387904
    two = unfold IsFloatOf in inr (1, omega arith, omega arith, omega arith, omega arith)

    id_at : at (codes "last_insert_rowid") outcome ≡ str (format_int (pos 7))
    id_at = unfold at find text_eq format_int in refl

    count_at : at (codes "affected_row_count") outcome ≡ number 4611686018427387904
    count_at = unfold at find text_eq in refl

read_rows-Table_example :
    read_rows {Time = Text} (suc (count one_row)) 1 (row_of outcome 0)
    ≡ ((string (codes "x") ∷ []) ∷ [], some at_eof)
read_rows-Table_example =
    read_rows-Table outcome 1 one_row ((string (codes "x") ∷ []) ∷ []) rows table
  where
    rows : rows_of outcome ≡ ok one_row
    rows = unfold rows_of at find as_elements text_eq in refl

    cell : checked {Time = Text} (read_value (value_of text_cell)) ≡ ok (string (codes "x"))
    cell = unfold read_value value_of at find text_of text_eq in refl

    narrow : count (element (obj text_cell) no_element) ≤ 1
    narrow = unfold count in omega arith

    table : Table {Time = Text} 1 one_row ((string (codes "x") ∷ []) ∷ [])
    table = a_row (a_cell cell no_cell) narrow no_row

stmt_exec-exec_example :
    let r = exec 0 open_conn (codes "SELECT ?") (all_positional (minus_forty_two ∷ [])) false in
    stmt_exec (pos 0) 0 (codes "SELECT ?") (minus_forty_two ∷ []) open_conn
    ≡ (r.0 >>= result_of_exec (pos 0), r.1)
stmt_exec-exec_example =
    stmt_exec-exec (pos 0) 0 (codes "SELECT ?") (minus_forty_two ∷ []) open_conn
