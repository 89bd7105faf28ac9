-- ===== src/Conn/Execute.antt =====
-- `executeInChunks` and `executeStmt`.
use libsql_client_go.Base.{
  ℕ, zero, suc, ◌+◌, ◌*◌, Bool, true, false, not, ◌&&◌, Option, none, some, List, [], ◌∷◌, ◌++◌,
  ltb, ◌==◌, if◌then◌else◌, length,
}
use libsql_client_go.Base.Texts.{Text, codes}
use libsql_client_go.Base.Results.{Result, ok, err}
use libsql_client_go.Values.{NamedValue}
use libsql_client_go.Splitter.{create_statement_iterator, split_statement, fuel_of}
use libsql_client_go.Params.{Params, parse_statement_and_args}
use libsql_client_go.Hrana.Request.{
  StreamRequest, bad_value, add_request, execute_stream, batch_stream,
}
use libsql_client_go.Hrana.Response.{PipelineResponse}
use libsql_client_go.Conn.World.{
  Env, Fault, bad_batch, bad_params, stuck, Exec, pure, raise, lift, ◌>>=◌, wrap, then_run, wrapped,
}
use libsql_client_go.Conn.Send.{execute_msg}
use libsql_client_go.Conn.Chunks.{
  Chunker, chunk_size, empty_message, Carried, nothing_carried, carry, chunk_message, next_chunk,
  closing, execute_single_stmt,
}

-- `result`, with the results so far.
abbrev pub append_results : PipelineResponse → PipelineResponse → PipelineResponse
append_results so_far p = record {
  baton = p.baton;
  base_url = p.base_url;
  results = so_far.results ++ p.results;
}

abbrev pub no_results : PipelineResponse
no_results = record { baton = []; base_url = []; results = [] }

-- How many statements may be left: the fuel of the loop over the chunks.
abbrev pub chunk_fuel : Chunker → ℕ
chunk_fuel c = fuel_of c.iterator.tokenizer + 1

abbrev pub query_size_limit : ℕ
query_size_limit = 20 * 1024 * 1024

-- What comes behind a call of `chunker.Next`.
abbrev pub on_next :
    (List Text → Bool → Chunker → Exec PipelineResponse)
    → Option ((List Text × Bool) × Chunker)
    → Exec PipelineResponse
on_next rest none = raise stuck
on_next rest (some ((chunk, is_eof), c)) = rest chunk is_eof c

module _ (env : Env) where
  open env use {clock, tokens, end_token, get_text}
  open clock use {Time}

  -- One chunk is sent; a failure closes the stream.
  unfoldable pub send_chunk : Carried → Bool → List Text → Exec PipelineResponse
  unfolding chunk_message execute_msg
  send_chunk k want_rows chunk w =
      closing env (wrap (execute_msg env (chunk_message k want_rows chunk)) w)

  -- The loop over the chunks, from a chunk that was read.
  unfoldable pub chunks_loop :
      (ℕ → ℕ → Text)
      → ℕ
      → Chunker
      → List Text
      → Bool
      → Carried
      → Bool
      → PipelineResponse
      → Exec PipelineResponse
  unfolding send_chunk next_chunk
  chunks_loop text zero c chunk is_eof k want_rows so_far w = raise stuck w
  chunks_loop text (suc f) c chunk is_eof k want_rows so_far w =
      then_run (send_chunk k want_rows chunk w).0 (send_chunk k want_rows chunk w).1 (λ p.
        elim is_eof [
          | true ↦ pure (append_results so_far p)
          | false ↦
              on_next
                (λ chunk' is_eof' c'.
                  chunks_loop text f c' chunk' is_eof' (carry w.conn k) want_rows
                    (append_results so_far p))
                (next_chunk text c)
        ])

  -- BEGIN, the chunks, COMMIT.
  unfoldable pub execute_all_chunks :
      (ℕ → ℕ → Text) → Chunker → List Text → Bool → Bool → Exec PipelineResponse
  unfolding chunks_loop execute_single_stmt
  execute_all_chunks text c chunk is_eof want_rows = do
    begun ← execute_single_stmt env (codes "BEGIN") false
    results ← chunks_loop text (chunk_fuel c) c chunk is_eof nothing_carried want_rows no_results
    committed ← λ w. closing env (execute_single_stmt env (codes "COMMIT") false w)
    pure results

  -- A single statement needs no transaction.
  unfoldable pub start_chunks :
      (ℕ → ℕ → Text) → Chunker → List Text → Bool → Bool → Exec PipelineResponse
  unfolding execute_all_chunks execute_single_stmt
  start_chunks text c (stmt ∷ []) true want_rows = execute_single_stmt env stmt want_rows
  start_chunks text c chunk is_eof want_rows = execute_all_chunks text c chunk is_eof want_rows

  unfoldable pub execute_in_chunks : Text → Bool → Exec PipelineResponse
  unfolding start_chunks next_chunk create_statement_iterator
  execute_in_chunks query want_rows =
      let text = get_text query in
      let it = create_statement_iterator (tokens query) (end_token query) in
      on_next (λ chunk is_eof c. start_chunks text c chunk is_eof want_rows)
        (next_chunk text (record { iterator = it; limit = chunk_size }))

  -- `shared.ParseStatementAndArgs`
  unfoldable pub parse :
      Text → List (NamedValue Time) → Result Fault (List Text × List (Params Time))
  parse query args = elim (split_statement (get_text query) (tokens query) (end_token query)) [
    | none ↦ err stuck
    | some (stmts, info) ↦ elim (parse_statement_and_args tokens stmts args) [
      | err e ↦ err (bad_params e)
      | ok ps ↦ ok (stmts, ps)
    ]
  ]

  abbrev first : List (Params Time) → Option (Params Time)
  first [] = none
  first (p ∷ ps) = some p

  -- One statement is executed; otherwise all are a batch, a transaction unless it is a schema
  -- database.
  unfoldable pub message_of :
      Bool → List Text → List (Params Time) → Bool → Result Fault StreamRequest
  unfolding execute_stream batch_stream
  message_of schema_db (stmt ∷ []) ps want_rows =
      elim (execute_stream clock stmt (first ps) want_rows) [
        | err e ↦ err (bad_batch (bad_value e))
        | ok r ↦ ok r
      ]
  message_of schema_db stmts ps want_rows =
      elim (batch_stream clock stmts ps want_rows (not schema_db)) [
        | err e ↦ err (bad_batch e)
        | ok r ↦ ok r
      ]

  abbrev pub execute_request : StreamRequest → Exec PipelineResponse
  execute_request r = wrap (execute_msg env (add_request empty_message r))

  unfoldable pub execute_parsed : Bool → List Text × List (Params Time) → Exec PipelineResponse
  unfolding message_of execute_msg
  execute_parsed want_rows (stmts, ps) w =
      then_run (wrapped (message_of w.conn.schema_db stmts ps want_rows)) w execute_request

  unfoldable pub execute_whole : Text → List (NamedValue Time) → Bool → Exec PipelineResponse
  unfolding parse execute_parsed
  execute_whole query args want_rows = wrap (lift (parse query args)) >>= execute_parsed want_rows

  unfoldable pub execute_stmt : Text → List (NamedValue Time) → Bool → Exec PipelineResponse
  unfolding execute_in_chunks execute_whole
  execute_stmt query args want_rows w =
      if length args == 0 && ltb query_size_limit (length query) && not w.conn.schema_db
      then execute_in_chunks query want_rows w
      else execute_whole query args want_rows w
