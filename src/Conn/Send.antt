-- ===== src/Conn/Send.antt =====
-- `sendPipelineRequest`, function and method, and `executeMsg`.
use libsql_client_go.Base.{
  ℕ, Bool, true, false, not, ◌&&◌, Option, none, some, List, [], ◌∷◌, ◌++◌, map, ltb, if◌then◌else◌,
}
use libsql_client_go.Base.Texts.{Text, codes, text_eq, is_empty, to_lower}
use libsql_client_go.Base.Results.{Result, ok, err}
use libsql_client_go.Hrana.Batch.{Stmt, Batch}
use libsql_client_go.Hrana.Request.{StreamRequest, PipelineRequest}
use libsql_client_go.Hrana.Response.{PipelineResponse, StreamResult}
use libsql_client_go.Conn.World.{
  Env, Fault, closed_stream, not_sent, transport, server_message, no_response, panicked, Conn,
  HttpRequest, Reply, World, Exec, pure, raise, ◌>>=◌,
}
use libsql_client_go.Conn.Replies.{
  Sending, get_replication_index, got, index_panics, read_reply, refused,
}

-- Header.Set: names are compared without regard to case.
unfoldable pub set_header : Text → Text → List (Text × Text) → List (Text × Text)
set_header k v [] = (k, v) ∷ []
set_header k v ((j, w) ∷ hs) =
    if text_eq (to_lower j) (to_lower k) then (k, v) ∷ hs else (j, w) ∷ set_header k v hs

-- The loop over the caller's headers.
unfoldable pub set_headers : List (Text × Text) → List (Text × Text) → List (Text × Text)
unfolding set_header
set_headers [] hs = hs
set_headers ((k, v) ∷ rest) hs = set_headers rest (set_header k v hs)

-- The index of a request that has none: of its statement, or else of its batch.
unfoldable pub stmt_with_index : ℕ → Stmt → Stmt
stmt_with_index n s = elim s.replication_index [
  | none ↦ record s { replication_index = some n }
  | some i ↦ s
]

unfoldable pub batch_with_index : ℕ → Batch → Batch
batch_with_index n b = elim b.replication_index [
  | none ↦ record b { replication_index = some n }
  | some i ↦ b
]

abbrev has_no_index : Option Stmt → Bool
has_no_index none = false
has_no_index (some s) = elim s.replication_index [ none ↦ true | some i ↦ false ]

unfoldable pub request_with_index : ℕ → StreamRequest → StreamRequest
unfolding stmt_with_index batch_with_index
request_with_index n r =
    if has_no_index r.stmt
    then record r { stmt = elim r.stmt [ none ↦ none | some s ↦ some (stmt_with_index n s) ] }
    else record r { batch = elim r.batch [ none ↦ none | some b ↦ some (batch_with_index n b) ] }

unfoldable pub add_replication_index : ℕ → PipelineRequest → PipelineRequest
unfolding request_with_index
add_replication_index n msg = record msg { requests = map (request_with_index n) msg.requests }

-- The message as it goes out: with the connection's baton and index.
unfoldable pub prepare : Conn → PipelineRequest → PipelineRequest
unfolding add_replication_index
prepare c msg =
    let m : PipelineRequest = if is_empty c.baton then msg else record msg { baton = c.baton } in
    if ltb 0 c.replication_index then add_replication_index c.replication_index m else m

abbrev pub mark_closed : Bool → Conn → Conn
mark_closed b c = if b then record c { stream_closed = true } else c

abbrev pub move_to : Text → Conn → Conn
move_to url c = if is_empty url then c else record c { url = url }

abbrev pub raise_index : ℕ → Conn → Conn
raise_index n c = if ltb c.replication_index n then record c { replication_index = n } else c

module _ (env : Env) where
  unfoldable pub request_headers_of : Conn → List (Text × Text)
  unfolding set_headers
  request_headers_of c =
      let authorized =
        if is_empty c.jwt then [] else (codes "Authorization", codes "Bearer " ++ c.jwt) ∷ [] in
      let versioned =
        set_header (codes "x-libsql-client-version") (codes "libsql-remote-go-" ++ env.commit_hash)
          authorized in
      let keyed =
        if is_empty c.remote_encryption_key
        then versioned
        else set_header (codes "x-turso-encryption-key") c.remote_encryption_key versioned in
      set_headers c.request_headers keyed

  -- The request of a message, if it can be built. Its texts are valid UTF-8, which json.Marshal keeps.
  unfoldable pub http_request : Conn → PipelineRequest → Option HttpRequest
  unfolding request_headers_of
  http_request c msg =
      if env.marshals msg
      then elim (env.join_path c.url (codes "/v2/pipeline")) [
        | none ↦ none
        | some url ↦
            some
              (record { url = url; host = c.host; headers = request_headers_of c; message = msg })
      ]
      else none

  -- The network takes the request and gives the next reply.
  unfoldable pub receive : List Reply → HttpRequest → World → Sending × World
  unfolding read_reply
  receive [] r w = (refused false (transport []), record w { sent = w.sent ++ (r ∷ []) })
  receive (reply ∷ rest) r w =
      (read_reply env reply, record w { sent = w.sent ++ (r ∷ []); replies = rest })

  unfoldable pub post : Option HttpRequest → World → Sending × World
  unfolding receive
  post none w = (refused false not_sent, w)
  post (some r) w = receive w.replies r w

  -- What the method keeps of a response, without its replication index.
  abbrev pub without_index : PipelineResponse → Bool → Conn → Conn
  without_index p stream_close c =
      move_to p.base_url
        (mark_closed (is_empty p.baton && not stream_close) (record c { baton = p.baton }))

  -- What the method keeps of a response.
  unfoldable pub after_response : PipelineResponse → Bool → Conn → Conn
  unfolding get_replication_index
  after_response p stream_close c =
      raise_index (get_replication_index env p) (without_index p stream_close c)

  unfoldable pub keep :
      Bool → PipelineResponse → Bool → World → Result Fault PipelineResponse × World
  unfolding after_response
  keep true p stream_close w =
      (err panicked, record w { conn = without_index p stream_close w.conn })
  keep false p stream_close w = (ok p, record w { conn = after_response p stream_close w.conn })

  unfoldable pub settle : Bool → Sending × World → Result Fault PipelineResponse × World
  unfolding keep index_panics
  settle stream_close (got p, w) = keep (index_panics env p.results) p stream_close w
  settle stream_close (refused closed f, w) = (err f, record w { conn = mark_closed closed w.conn })

  -- The method `sendPipelineRequest`.
  unfoldable pub send : PipelineRequest → Bool → Exec PipelineResponse
  unfolding post settle http_request prepare
  send msg stream_close w =
      if w.conn.stream_closed
      then (err closed_stream, w)
      else settle stream_close (post (http_request w.conn (prepare w.conn msg)) w)

  -- The loop of `executeMsg` over the results.
  unfoldable pub check_results : List StreamResult → Option Fault
  check_results [] = none
  check_results (r ∷ rs) = elim r.error [
    | some e ↦ some (server_message e.message)
    | none ↦ elim r.response [ none ↦ some no_response | some s ↦ check_results rs ]
  ]

  abbrev pub report : PipelineResponse → Option Fault → Exec PipelineResponse
  report p none = pure p
  report p (some f) = raise f

  abbrev pub checked : PipelineResponse → Exec PipelineResponse
  checked p = report p (check_results p.results)

  unfoldable pub execute_msg : PipelineRequest → Exec PipelineResponse
  unfolding check_results
  execute_msg msg = send msg false >>= checked
