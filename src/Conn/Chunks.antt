-- ===== src/Conn/Chunks.antt =====
-- Scripts: `chunker`, `isTransactionStatement`, `executeSingleStmt`, `executeInChunks`, `closeStream`.
use libsql_client_go.Base.{
  ℕ, zero, suc, ◌+◌, Bool, true, false, ◌||◌, Option, none, some, List, [], ◌∷◌, ◌++◌, map, ltb,
  if◌then◌else◌, length,
}
use libsql_client_go.Base.Texts.{Text, codes, is_empty, to_lower, starts_with}
use libsql_client_go.Base.Results.{Result, ok, err}
use libsql_client_go.Splitter.{StatementIterator, next, fuel_of}
use libsql_client_go.Hrana.Request.{
  PipelineRequest, add_request, close_stream, stmt_of, execute_stream, bad_value,
}
use libsql_client_go.Hrana.Response.{PipelineResponse}
use libsql_client_go.Conn.World.{
  HttpRequest, Env, Fault, bad_batch, Conn, World, Exec, raise, wrap, is_panic,
}
use libsql_client_go.Conn.Send.{http_request, execute_msg}

unfoldable pub is_transaction_statement : Text → Bool
unfolding starts_with to_lower
is_transaction_statement stmt =
    let s = to_lower stmt in
    starts_with (codes "begin") s
    || starts_with (codes "commit") s
    || starts_with (codes "end") s
    || starts_with (codes "rollback") s

-- `chunker`, without the statements of the last chunk.
pub record Chunker : Type 0 where
  pub iterator : StatementIterator
  pub limit : ℕ

abbrev pub chunk_size : ℕ
chunk_size = 4096

abbrev pub empty_message : PipelineRequest
empty_message = record { baton = []; requests = [] }

abbrev pub keep_statement : Text → List Text → List Text
keep_statement stmt chunk =
    if is_empty stmt || is_transaction_statement stmt then chunk else chunk ++ (stmt ∷ [])

-- What a chunk in flight keeps of the messages before it, which share one `msg` and one `batch`: the
-- baton and the replication index that `sendPipelineRequest` wrote into them.
pub record Carried : Type 0 where
  pub baton : Text
  pub index : Option ℕ

abbrev pub nothing_carried : Carried
nothing_carried = record { baton = []; index = none }

abbrev pub carry : Conn → Carried → Carried
carry c k = record {
  baton = if is_empty c.baton then k.baton else c.baton;
  index = elim k.index [
    | some i ↦ some i
    | none ↦ if ltb 0 c.replication_index then some c.replication_index else none
  ];
}

-- The batch of one chunk: its statements, each without a condition.
unfoldable pub chunk_message : Carried → Bool → List Text → PipelineRequest
chunk_message k want_rows chunk = record {
  baton = k.baton;
  requests =
      record {
        kind = codes "batch";
        stmt = none;
        batch = some (record {
          steps =
              map (λ (sql : Text). record { stmt = stmt_of sql want_rows; condition = none }) chunk;
          replication_index = k.index;
        });
        sql = none;
        sql_id = none;
      }
      ∷ [];
}

-- The loop of `chunker.Next`, with the chunk so far.
unfoldable pub chunk_loop :
    (ℕ → ℕ → Text)
    → ℕ
    → ℕ
    → StatementIterator
    → List Text
    → Option ((List Text × Bool) × StatementIterator)
chunk_loop get_text limit zero it chunk = none
chunk_loop get_text limit (suc f) it chunk = elim (ltb (length chunk) limit) [
  | false ↦ some ((chunk, false), it)
  | true ↦ elim (next get_text it) [
    | none ↦ none
    | some (st, it') ↦
        let kept = keep_statement st.statement chunk in
        if st.is_eof then some ((kept, true), it') else chunk_loop get_text limit f it' kept
  ]
]

-- `chunker.Next`
unfoldable pub next_chunk : (ℕ → ℕ → Text) → Chunker → Option ((List Text × Bool) × Chunker)
unfolding chunk_loop
next_chunk get_text c =
    elim (chunk_loop get_text c.limit (fuel_of c.iterator.tokenizer + 1) c.iterator []) [
      | none ↦ none
      | some (r, it) ↦ some (r, record c { iterator = it })
    ]

-- A request on a goroutine of its own, if it can be built.
abbrev pub spawn : Option HttpRequest → World → World
spawn none w = w
spawn (some r) w = record w { spawned = w.spawned ++ (r ∷ []) }

-- The message of `closeStream`.
abbrev pub close_message : Conn → PipelineRequest
close_message c = add_request (record { baton = c.baton; requests = [] }) close_stream

module _ (env : Env) where
  abbrev pub spawn_close : World → World
  spawn_close w = spawn (http_request env w.conn (close_message w.conn)) w

  unfoldable pub close_stream_of : World → World
  close_stream_of w =
      if is_empty w.conn.baton
      then w
      else record (spawn_close w) { conn = record w.conn { baton = [] } }

  -- A failed call closes the stream before it reports.
  abbrev pub closing {ℓ} : {A : Type ℓ} → Result Fault A × World → Result Fault A × World
  closing (ok a, w) = (ok a, w)
  closing (err f, w) = (err f, if is_panic f then w else close_stream_of w)

  unfoldable pub execute_single_stmt : Text → Bool → Exec PipelineResponse
  unfolding execute_msg
  execute_single_stmt stmt want_rows = wrap (elim (execute_stream env.clock stmt none want_rows) [
    | err e ↦ raise (bad_batch (bad_value e))
    | ok r ↦ execute_msg env (add_request empty_message r)
  ])
