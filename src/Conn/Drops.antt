-- ===== src/Conn/Drops.antt =====
-- What `executeInChunks` leaves behind, whether it fails or not.
use libsql_client_go.Base.{
  ℕ, zero, suc, ◌≡◌, ◌≢◌, ◌⊎◌, refl, ap, inl, inr, Bool, true, false, Option, none, some, List, [],
  ◌∷◌, ◌++◌, Bool-cases, if_split,
}
use libsql_client_go.Base.Texts.{Text, codes, is_empty}
use libsql_client_go.Base.Results.{Result, ok, err}
use libsql_client_go.Tokens.{is_eof, visible}
use libsql_client_go.Splitter.Refine.{NoEof}
use libsql_client_go.Hrana.Request.{execute_stream}
use libsql_client_go.Hrana.Response.{PipelineResponse}
use libsql_client_go.Conn.World.{Env, Fault, stuck, is_panic, World, Exec, then_run}
use libsql_client_go.Conn.Chunks.{
  Chunker, next_chunk, Carried, carry, nothing_carried, closing, close_stream_of,
  execute_single_stmt,
}
use libsql_client_go.Conn.Execute.{
  send_chunk, chunks_loop, execute_all_chunks, start_chunks, execute_in_chunks, append_results,
  on_next, chunk_fuel, no_results,
}
use libsql_client_go.Conn.Scripts.{read_chunks, script_chunker}
use libsql_client_go.Conn.Trips.{Trip, execute_msg-Trip}
use libsql_client_go.Conn.Said.{sent_sqls, Said}
use libsql_client_go.Conn.Ends.{execute_in_chunks-Ends}
use libsql_client_go.Conn.Brackets.{script, on_next-Said, start_chunks-Said}

-- A failure behind the first request leaves no stream.
Drops : Result Fault PipelineResponse × World → Type 0
Drops (ok p, v) = Unit
Drops (err f, v) = (f ≡ stuck) ⊎ (is_panic f ≡ true) ⊎ (v.conn.baton ≡ [])

Fails : World → Result Fault PipelineResponse × World → Type 0
Fails w (ok p, v) = Unit
Fails w (err f, v) = (f ≡ stuck) ⊎ (is_panic f ≡ true) ⊎ (v.conn.baton ≡ []) ⊎ Trip w v

-- How a script ends: it has sent these texts, or it failed and the program panicked, the stream is given
-- up or at most one request was sent.
unfoldable pub Outcome : List (List Text) → World → Result Fault PipelineResponse × World → Type 0
Outcome css w (ok p, v) = sent_sqls v ≡ sent_sqls w ++ script css
Outcome css w (err f, v) = (is_panic f ≡ true) ⊎ (v.conn.baton ≡ []) ⊎ Trip w v

Outcome-of :
    (css : List (List Text)) (w : World) (r : Result Fault PipelineResponse × World)
    → Said (script css) w r
    → Fails w r
    → r.0 ≢ err stuck
    → Outcome css w r
unfolding Outcome Said Fails
Outcome-of css w (ok p, v) h k e = h
Outcome-of css w (err f, v) h (inl same) e = absurd (e (ap err same))
Outcome-of css w (err f, v) h (inr failed) e = failed

module _ (env : Env) where
  empty-nil : (b : Text) → is_empty b ≡ true → b ≡ []
  empty-nil [] e = refl
  empty-nil (c ∷ b) e = cc

  close_stream_of-baton : (w : World) → (close_stream_of env w).conn.baton ≡ []
  unfolding close_stream_of
  close_stream_of-baton w = elim (Bool-cases (is_empty w.conn.baton)) [
    | inl e ↦ rw e (empty-nil w.conn.baton e)
    | inr e ↦ rw e refl
  ]

  closing-Drops : (r : Result Fault PipelineResponse × World) → Drops (closing env r)
  unfolding Drops
  closing-Drops (ok p, w) = tt
  closing-Drops (err f, w) =
      if_split (λ (v : World). (f ≡ stuck) ⊎ (is_panic f ≡ true) ⊎ (v.conn.baton ≡ [])) (is_panic f)
        (λ h. inr (inl h)) (λ h. inr (inr (close_stream_of-baton w)))

  then_run-Drops :
      (r : Result Fault PipelineResponse) (v : World) (f : PipelineResponse → Exec PipelineResponse)
      → Drops (r, v)
      → ((p : PipelineResponse) → Drops (f p v))
      → Drops (then_run r v f)
  unfolding Drops
  then_run-Drops (ok p) v f h k = k p
  then_run-Drops (err e) v f h k = h

  then_run-Fails :
      (w : World) (r : Result Fault PipelineResponse) (v : World)
      (f : PipelineResponse → Exec PipelineResponse)
      → Trip w v
      → ((p : PipelineResponse) → Drops (f p v))
      → Fails w (then_run r v f)
  unfolding Fails Drops
  then_run-Fails w (err e) v f h k = inr (inr (inr h))
  then_run-Fails w (ok p) v f h k = Drops-Fails (f p v) (k p)
    where
      Drops-Fails : (r : Result Fault PipelineResponse × World) → Drops r → Fails w r
      Drops-Fails (ok q, u) d = tt
      Drops-Fails (err e, u) (inl h') = inl h'
      Drops-Fails (err e, u) (inr (inl h')) = inr (inl h')
      Drops-Fails (err e, u) (inr (inr h')) = inr (inr (inl h'))

  send_chunk-Drops :
      (k : Carried) (want_rows : Bool) (chunk : List Text) (w : World)
      → Drops (send_chunk env k want_rows chunk w)
  unfolding send_chunk
  send_chunk-Drops k want_rows chunk w = closing-Drops _

  on_next-Drops :
      (rest : List Text → Bool → Chunker → Exec PipelineResponse) (w : World)
      (o : Option ((List Text × Bool) × Chunker))
      → ((chunk : List Text) (ended : Bool) (c : Chunker) → Drops (rest chunk ended c w))
      → Drops (on_next rest o w)
  unfolding Drops
  on_next-Drops rest w none ih = inl refl
  on_next-Drops rest w (some ((chunk, ended), c)) ih = ih chunk ended c

  chunks_loop-Drops :
      (text : ℕ → ℕ → Text) (f : ℕ) (c : Chunker) (chunk : List Text) (ended : Bool) (k : Carried)
      (want_rows : Bool) (so_far : PipelineResponse) (w : World)
      → Drops (chunks_loop env text f c chunk ended k want_rows so_far w)
  unfolding chunks_loop Drops
  chunks_loop-Drops text zero c chunk ended k want_rows so_far w = inl refl
  chunks_loop-Drops text (suc f) c chunk true k want_rows so_far w =
      let r = send_chunk env k want_rows chunk w in
      then_run-Drops r.0 r.1 _ (send_chunk-Drops k want_rows chunk w) (λ p. tt)
  chunks_loop-Drops text (suc f) c chunk false k want_rows so_far w =
      let r = send_chunk env k want_rows chunk w in
      then_run-Drops r.0 r.1 _ (send_chunk-Drops k want_rows chunk w) (λ p.
        on_next-Drops _ r.1 (next_chunk text c) (λ chunk' ended c'.
          chunks_loop-Drops text f c' chunk' ended (carry w.conn k) want_rows
            (append_results so_far p) r.1))

  execute_single_stmt-Trip :
      (stmt : Text) (want_rows : Bool) (w : World)
      → Trip w (execute_single_stmt env stmt want_rows w).1
  unfolding execute_single_stmt execute_stream
  execute_single_stmt-Trip stmt want_rows w = execute_msg-Trip env _ w

  execute_all_chunks-Fails :
      (text : ℕ → ℕ → Text) (c : Chunker) (chunk : List Text) (ended want_rows : Bool) (w : World)
      → Fails w (execute_all_chunks env text c chunk ended want_rows w)
  unfolding execute_all_chunks Drops
  execute_all_chunks-Fails text c chunk ended want_rows w =
      let begun = execute_single_stmt env (codes "BEGIN") false w in
      then_run-Fails w begun.0 begun.1 _ (execute_single_stmt-Trip (codes "BEGIN") false w) (λ p.
        let r =
          chunks_loop env text (chunk_fuel c) c chunk ended nothing_carried want_rows no_results
            begun.1 in
        then_run-Drops r.0 r.1 _
          (chunks_loop-Drops text (chunk_fuel c) c chunk ended nothing_carried want_rows no_results
            begun.1)
          (λ q.
            let closed = closing env (execute_single_stmt env (codes "COMMIT") false r.1) in
            then_run-Drops closed.0 closed.1 _ (closing-Drops _) (λ s. tt)))

  single-Fails : (w : World) (r : Result Fault PipelineResponse × World) → Trip w r.1 → Fails w r
  unfolding Fails
  single-Fails w (ok p, v) h = tt
  single-Fails w (err f, v) h = inr (inr (inr h))

  start_chunks-Fails :
      (text : ℕ → ℕ → Text) (c : Chunker) (chunk : List Text) (ended want_rows : Bool) (w : World)
      → Fails w (start_chunks env text c chunk ended want_rows w)
  unfolding start_chunks
  start_chunks-Fails text c (stmt ∷ []) true want_rows w =
      single-Fails w (execute_single_stmt env stmt want_rows w)
        (execute_single_stmt-Trip stmt want_rows w)
  start_chunks-Fails text c (stmt ∷ []) false want_rows w =
      execute_all_chunks-Fails text c (stmt ∷ []) false want_rows w
  start_chunks-Fails text c [] ended want_rows w =
      execute_all_chunks-Fails text c [] ended want_rows w
  start_chunks-Fails text c (s ∷ (t ∷ ts)) ended want_rows w =
      execute_all_chunks-Fails text c (s ∷ (t ∷ ts)) ended want_rows w

  on_next-Fails :
      (rest : List Text → Bool → Chunker → Exec PipelineResponse) (w : World)
      (o : Option ((List Text × Bool) × Chunker))
      → ((chunk : List Text) (ended : Bool) (c : Chunker) → Fails w (rest chunk ended c w))
      → Fails w (on_next rest o w)
  unfolding Fails
  on_next-Fails rest w none ih = inl refl
  on_next-Fails rest w (some ((chunk, ended), c)) ih = ih chunk ended c

  -- `executeInChunks`, where `css` are the chunks that `chunker.Next` gives for the text: if it
  -- succeeds, it has sent BEGIN, every chunk once and in order, and COMMIT, or the one statement alone
  -- if there is only one; if it fails, the connection has given up the stream, unless it failed with
  -- its first request or by a panic.
  pub execute_in_chunks-Outcome :
      (query : Text) (want_rows : Bool) (w : World) (g : ℕ) (css : List (List Text))
      → is_eof (env.end_token query).kind ≡ true
      → NoEof (visible (env.tokens query))
      → read_chunks
          (env.get_text query)
          (suc g)
          (script_chunker (env.tokens query) (env.end_token query))
        ≡ some css
      → Outcome css w (execute_in_chunks env query want_rows w)
  unfolding execute_in_chunks read_chunks
  execute_in_chunks-Outcome query want_rows w g css end n h =
      let text = env.get_text query in
      let c = script_chunker (env.tokens query) (env.end_token query) in
      let rest = λ (chunk : List Text) (ended : Bool) (c' : Chunker).
        start_chunks env text c' chunk ended want_rows in
      Outcome-of css w (execute_in_chunks env query want_rows w)
        (on_next-Said env text g css (script css) rest w (next_chunk text c) h
          (λ chunk ended c' up. start_chunks-Said env text g c' chunk ended want_rows css w up))
        (on_next-Fails rest w (next_chunk text c)
          (λ chunk ended c'. start_chunks-Fails text c' chunk ended want_rows w))
        (execute_in_chunks-Ends env query want_rows w end n)
