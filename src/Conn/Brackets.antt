-- ===== src/Conn/Brackets.antt =====
-- What `executeInChunks` sends, and what it leaves behind when it fails.
use mathlib.Core.List.{append-nil}
use mathlib.Core.Path.{subst}
use libsql_client_go.Base.{
  ℕ, zero, suc, ◌≡◌, refl, ap, sym, ◌∙◌, Bool, true, false, Option, none, some, List, [], ◌∷◌, ◌++◌,
  map, arith,
}
use libsql_client_go.Base.Texts.{Text, codes}
use libsql_client_go.Base.Results.{Result, ok, err}
use libsql_client_go.Hrana.Batch.{BatchStep}
use libsql_client_go.Hrana.Request.{execute_stream, stmt_of}
use libsql_client_go.Hrana.Response.{PipelineResponse}
use libsql_client_go.Conn.World.{Env, Fault, World, Exec, wrapped}
use libsql_client_go.Conn.Send.{execute_msg}
use libsql_client_go.Conn.Chunks.{
  Chunker, next_chunk, Carried, carry, nothing_carried, chunk_message, closing, execute_single_stmt,
}
use libsql_client_go.Conn.Execute.{
  send_chunk, chunks_loop, execute_all_chunks, start_chunks, append_results, on_next, chunk_fuel,
  no_results,
}
use libsql_client_go.Conn.Scripts.{then_read, read_chunks}
use libsql_client_go.Conn.Said.{
  message_sqls, sent_sqls, Said, then_run-Said, execute_msg-Said, stmt_sql, request_sqls,
}

abbrev pub bracket : List (List Text) → List (List Text)
bracket css = (codes "BEGIN" ∷ []) ∷ (css ++ ((codes "COMMIT" ∷ []) ∷ []))

abbrev pub one_chunk : List Text → List (List Text)
one_chunk (stmt ∷ []) = (stmt ∷ []) ∷ []
one_chunk chunk = bracket (chunk ∷ [])

-- The texts of the requests of a script: a single statement is sent alone, anything else by chunks in
-- a transaction.
abbrev pub script : List (List Text) → List (List Text)
script (chunk ∷ []) = one_chunk chunk
script css = bracket css

wrapped-Said :
    (ms : List (List Text)) (w : World) (r : Result Fault PipelineResponse) (v : World)
    → Said ms w (r, v)
    → Said ms w (wrapped r, v)
unfolding Said
wrapped-Said ms w (ok p) v h = h
wrapped-Said ms w (err f) v h = tt

chunk_message-sqls :
    (k : Carried) (want_rows : Bool) (chunk : List Text)
    → message_sqls (chunk_message k want_rows chunk).requests ≡ chunk
unfolding chunk_message message_sqls request_sqls stmt_sql
chunk_message-sqls k want_rows chunk = append-nil _ ∙ steps chunk
  where
    steps :
        (sqls : List Text)
        → map
            (λ (step : BatchStep). elim step.stmt.sql [ none ↦ [] | some t ↦ t ])
            (map (λ (sql : Text). record { stmt = stmt_of sql want_rows; condition = none }) sqls)
          ≡ sqls
    steps [] = refl
    steps (s ∷ sqls) = ap (λ (xs : List Text). s ∷ xs) (steps sqls)

module _ (env : Env) where
  closing-Said :
      (ms : List (List Text)) (w : World) (r : Result Fault PipelineResponse) (v : World)
      → Said ms w (r, v)
      → Said ms w (closing env (r, v))
  unfolding Said
  closing-Said ms w (ok p) v h = h
  closing-Said ms w (err f) v h = tt

  execute_single_stmt-Said :
      (stmt : Text) (want_rows : Bool) (w : World)
      → Said ((stmt ∷ []) ∷ []) w (execute_single_stmt env stmt want_rows w)
  unfolding execute_single_stmt message_sqls request_sqls stmt_sql execute_stream
  execute_single_stmt-Said stmt want_rows w =
      wrapped-Said ((stmt ∷ []) ∷ []) w _ _ (execute_msg-Said env _ w)

  send_chunk-Said :
      (k : Carried) (want_rows : Bool) (chunk : List Text) (w : World)
      → Said (chunk ∷ []) w (send_chunk env k want_rows chunk w)
  unfolding send_chunk
  send_chunk-Said k want_rows chunk w =
      let msg = chunk_message k want_rows chunk in
      closing-Said (chunk ∷ []) w _ _ (
        wrapped-Said (chunk ∷ []) w _ _ (
          subst (λ sqls. Said (sqls ∷ []) w (execute_msg env msg w))
            (chunk_message-sqls k want_rows chunk) (execute_msg-Said env msg w)))

  -- The chunks from one that was read: it, and those that `chunker.Next` gives behind it.
  abbrev pub Upcoming : (ℕ → ℕ → Text) → ℕ → List Text → Bool → Chunker → List (List Text) → Type 0
  Upcoming text g chunk is_eof c css =
      then_read (λ c'. read_chunks text g c') (some ((chunk, is_eof), c)) ≡ some css

  then_read-more :
      (chunk : List Text) (o : Option (List (List Text))) (css : List (List Text))
      → elim o [ none ↦ none | some rest ↦ some (chunk ∷ rest) ] ≡ some css
      → (rest : List (List Text)) × (o ≡ some rest) × (css ≡ chunk ∷ rest)
  then_read-more chunk none css e = cc
  then_read-more chunk (some rest) css e = (rest, refl, cc)

  pub on_next-Said :
      (text : ℕ → ℕ → Text) (g : ℕ) (css said : List (List Text))
      (rest : List Text → Bool → Chunker → Exec PipelineResponse) (w : World)
      (o : Option ((List Text × Bool) × Chunker))
      → then_read (λ c. read_chunks text g c) o ≡ some css
      → ((chunk : List Text) (is_eof : Bool) (c : Chunker)
          → Upcoming text g chunk is_eof c css
          → Said said w (rest chunk is_eof c w))
      → Said said w (on_next rest o w)
  on_next-Said text g css said rest w none e ih = cc
  on_next-Said text g css said rest w (some ((chunk, is_eof), c)) e ih = ih chunk is_eof c e

  pure-Said : (w : World) (p : PipelineResponse) → Said {A = PipelineResponse} [] w (ok p, w)
  unfolding Said
  pure-Said w p = sym (append-nil (sent_sqls w))

  chunks_loop-Said :
      (text : ℕ → ℕ → Text) (f g : ℕ) (c : Chunker) (chunk : List Text) (is_eof : Bool)
      (css : List (List Text)) (k : Carried) (want_rows : Bool) (so_far : PipelineResponse)
      (w : World)
      → Upcoming text g chunk is_eof c css
      → Said css w (chunks_loop env text f c chunk is_eof k want_rows so_far w)
  unfolding chunks_loop read_chunks
  chunks_loop-Said text zero g c chunk is_eof css k want_rows so_far w h = unfold Said in tt
  chunks_loop-Said text (suc f) g c chunk true css k want_rows so_far w h =
      let same : chunk ∷ [] ≡ css = cc in
      let r = send_chunk env k want_rows chunk w in
      rw⁻¹ same (
        then_run-Said (chunk ∷ []) [] w r.0 r.1 _ (send_chunk-Said k want_rows chunk w)
          (λ p. pure-Said r.1 _))
  chunks_loop-Said text (suc f) zero c chunk false css k want_rows so_far w h =
      absurd (ground arith)
  chunks_loop-Said text (suc f) (suc g) c chunk false css k want_rows so_far w h =
      let (rest, found, same) = then_read-more chunk (read_chunks text (suc g) c) css h in
      let r = send_chunk env k want_rows chunk w in
      rw same (
        then_run-Said (chunk ∷ []) rest w r.0 r.1 _ (send_chunk-Said k want_rows chunk w) (λ p.
          on_next-Said text g rest rest _ r.1 (next_chunk text c) found (λ chunk' is_eof' c' up.
            chunks_loop-Said text f g c' chunk' is_eof' rest (carry w.conn k) want_rows
              (append_results so_far p) r.1 up)))

  execute_all_chunks-Said :
      (text : ℕ → ℕ → Text) (g : ℕ) (c : Chunker) (chunk : List Text) (is_eof want_rows : Bool)
      (css : List (List Text)) (w : World)
      → Upcoming text g chunk is_eof c css
      → Said (bracket css) w (execute_all_chunks env text c chunk is_eof want_rows w)
  unfolding execute_all_chunks
  execute_all_chunks-Said text g c chunk is_eof want_rows css w h =
      let begun = execute_single_stmt env (codes "BEGIN") false w in
      then_run-Said ((codes "BEGIN" ∷ []) ∷ []) (css ++ ((codes "COMMIT" ∷ []) ∷ [])) w begun.0
        begun.1 _ (execute_single_stmt-Said (codes "BEGIN") false w)
        (λ p.
          let r =
            chunks_loop env text (chunk_fuel c) c chunk is_eof nothing_carried want_rows no_results
              begun.1 in
          then_run-Said css ((codes "COMMIT" ∷ []) ∷ []) begun.1 r.0 r.1 _
            (chunks_loop-Said text (chunk_fuel c) g c chunk is_eof css nothing_carried want_rows
              no_results begun.1 h)
            (λ q.
              let closed = closing env (execute_single_stmt env (codes "COMMIT") false r.1) in
              then_run-Said ((codes "COMMIT" ∷ []) ∷ []) [] r.1 closed.0 closed.1 _
                (closing-Said ((codes "COMMIT" ∷ []) ∷ []) r.1 _ _
                  (execute_single_stmt-Said (codes "COMMIT") false r.1))
                (λ s. pure-Said closed.1 q)))

  read_chunks-some :
      (text : ℕ → ℕ → Text) (g : ℕ) (c : Chunker) (css : List (List Text))
      → read_chunks text g c ≡ some css
      → (chunk : List Text) × (rest : List (List Text)) × (css ≡ chunk ∷ rest)
  unfolding read_chunks
  read_chunks-some text zero c css e = cc
  read_chunks-some text (suc g) c css e = by_next (next_chunk text c) e
    where
      by_next :
          (o : Option ((List Text × Bool) × Chunker))
          → then_read (λ c'. read_chunks text g c') o ≡ some css
          → (chunk : List Text) × (rest : List (List Text)) × (css ≡ chunk ∷ rest)
      by_next none e' = cc
      by_next (some ((chunk, true), c')) e' = (chunk, [], cc)
      by_next (some ((chunk, false), c')) e' =
          let (rest, found, same) = then_read-more chunk (read_chunks text g c') css e' in
          (chunk, rest, same)

  pub start_chunks-false :
      (text : ℕ → ℕ → Text) (c : Chunker) (chunk : List Text) (want_rows : Bool) (w : World)
      → start_chunks env text c chunk false want_rows w
        ≡ execute_all_chunks env text c chunk false want_rows w
  unfolding start_chunks
  start_chunks-false text c [] want_rows w = refl
  start_chunks-false text c (s ∷ []) want_rows w = refl
  start_chunks-false text c (s ∷ (t ∷ ts)) want_rows w = refl

  pub start_chunks-Said :
      (text : ℕ → ℕ → Text) (g : ℕ) (c : Chunker) (chunk : List Text) (is_eof want_rows : Bool)
      (css : List (List Text)) (w : World)
      → Upcoming text g chunk is_eof c css
      → Said (script css) w (start_chunks env text c chunk is_eof want_rows w)
  unfolding start_chunks
  start_chunks-Said text g c (stmt ∷ []) true want_rows css w h =
      let same : (stmt ∷ []) ∷ [] ≡ css = cc in
      rw⁻¹ same (execute_single_stmt-Said stmt want_rows w)
  start_chunks-Said text g c [] true want_rows css w h =
      let same : [] ∷ [] ≡ css = cc in
      subst (λ xs. Said (script xs) w (execute_all_chunks env text c [] true want_rows w)) same
        (execute_all_chunks-Said text g c [] true want_rows ([] ∷ []) w refl)
  start_chunks-Said text g c (s ∷ (t ∷ ts)) true want_rows css w h =
      let same : (s ∷ (t ∷ ts)) ∷ [] ≡ css = cc in
      subst
        (λ xs. Said (script xs) w (execute_all_chunks env text c (s ∷ (t ∷ ts)) true want_rows w))
        same
        (execute_all_chunks-Said text g c (s ∷ (t ∷ ts)) true want_rows ((s ∷ (t ∷ ts)) ∷ []) w
          refl)
  start_chunks-Said text g c chunk false want_rows css w h =
      let (rest, found, same) = then_read-more chunk (read_chunks text g c) css h in
      let (next, later, split) = read_chunks-some text g c rest found in
      let whole : css ≡ chunk ∷ (next ∷ later) = same ∙ ap (λ xs. chunk ∷ xs) split in
      let long : bracket css ≡ script css = ap bracket whole ∙ sym (ap script whole) in
      rw (start_chunks-false text c chunk want_rows w) (
        subst (λ xs. Said xs w (execute_all_chunks env text c chunk false want_rows w)) long
          (execute_all_chunks-Said text g c chunk false want_rows css w h))
