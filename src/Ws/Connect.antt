-- ===== src/Ws/Connect.antt =====
-- `connect` of libsql/internal/ws/websockets.go. `websocket.Dial` is an argument: the socket that
-- it gives, if any.
use libsql_client_go.Base.{Bool, true, false, Option, none, some, if◌then◌else◌}
use libsql_client_go.Base.Texts.{Text, codes}
use libsql_client_go.Base.Results.{Result, ok, err}
use libsql_client_go.IdPool.{new_id_pool}
use libsql_client_go.Ws.Dynamic.{Dynamic, as_object, at, is_text, error_msg, is_error_resp}
use libsql_client_go.Ws.Socket.{
  Message, hello, request, open_stream, Socket, StatusCode, status_internal_error,
  status_protocol_error, Fault, dial_failed, write_failed, read_failed, handshake_error,
  stream_error, write, read, close_with, Io, pure, ◌>>=◌, assert,
}
use libsql_client_go.Ws.Exec.{WebsocketConn}

-- An error that closes the socket on its way out.
unfoldable pub fail_with {ℓ} : {A : Type ℓ} → StatusCode → Fault → Io A
unfolding close_with
fail_with code f s = (err f, close_with code s)

unfoldable pub say : Message → Io {0} Unit
unfolding write fail_with
say m s =
    let r = write m s in
    if r.0 then (ok tt, r.1) else fail_with status_internal_error write_failed r.1

abbrev pub heard : Option Dynamic → Io Dynamic
heard none = fail_with status_internal_error read_failed
heard (some d) = pure d

unfoldable pub hear : Io Dynamic
unfolding read fail_with
hear s = let r = read s in heard r.0 r.1

-- A refusal, with the message of a response.
abbrev pub refuse : Bool → (Text → Fault) → Dynamic → Io {0} Unit
refuse false fault resp = pure tt
refuse true fault resp = do
  message ← assert (error_msg resp)
  fail_with status_protocol_error (fault message)

-- The two checks of a response. Of a bad response to `open_stream` the code takes the message from
-- the response to `hello`.
unfoldable pub check_hello : Dynamic → Io {0} Unit
unfolding as_object at is_text error_msg fail_with
check_hello hello_resp = do
  m ← assert (as_object hello_resp)
  refuse (is_text (at (codes "type") m) (codes "hello_error")) handshake_error hello_resp

unfoldable pub check_stream : Dynamic → Dynamic → Io {0} Unit
unfolding is_error_resp error_msg fail_with
check_stream hello_resp open_stream_resp = do
  bad ← assert (is_error_resp open_stream_resp)
  refuse bad stream_error hello_resp

-- `connect` behind the dial.
unfoldable pub handshake : Text → Io {0} Unit
unfolding say hear check_hello check_stream
handshake jwt = do
  u ← say (hello jwt)
  v ← say (request 0 (open_stream 0))
  hello_resp ← hear
  w ← check_hello hello_resp
  open_stream_resp ← hear
  check_stream hello_resp open_stream_resp

abbrev pub connected : Result Fault (Unit {0}) → Socket → Result Fault WebsocketConn × Option Socket
connected (ok u) s = (ok (record { socket = s; id_pool = new_id_pool }), some s)
connected (err f) s = (err f, some s)

-- `connect`: the connection or an error, and the socket that was dialled.
unfoldable pub connect : Option Socket → Text → Result Fault WebsocketConn × Option Socket
unfolding handshake
connect none jwt = (err dial_failed, none)
connect (some s) jwt = let r = handshake jwt s in connected r.0 r.1
