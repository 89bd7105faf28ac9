-- ===== src/Conn/Ends.antt =====
-- `executeInChunks` comes to an end.
use libsql_client_go.Base.{
  if_split, sym, ◌∙◌, false_ne_true, ℕ, zero, suc, ◌+◌, ◌<◌, ◌≡◌, ◌≢◌, ap, Bool, true, false,
  Option, none, some, List, [], ◌∷◌, length, arith,
}
use libsql_client_go.Base.Texts.{Text, codes}
use libsql_client_go.Base.Results.{Result, ok, err}
use libsql_client_go.Tokens.{is_eof, visible}
use libsql_client_go.Splitter.{StatementIterator, fuel_of, create_statement_iterator}
use libsql_client_go.Splitter.Calls.{Reads, Reads-few, split_statement-Reads}
use libsql_client_go.Splitter.Refine.{NoEof}
use libsql_client_go.Hrana.Response.{PipelineResponse}
use libsql_client_go.Conn.World.{Env, Fault, stuck, is_panic, World, Exec, then_run, wrapped}
use libsql_client_go.Conn.Chunks.{
  Chunker, chunk_size, Carried, carry, nothing_carried, closing, execute_single_stmt,
}
use libsql_client_go.Conn.Execute.{
  send_chunk, chunks_loop, execute_all_chunks, start_chunks, execute_in_chunks, append_results,
  on_next, chunk_fuel, no_results,
}
use libsql_client_go.Conn.Scripts.{Chunked, at_end, full, moved, next_chunk-Chunked}

-- It ends without having spent its fuel.
abbrev pub Ends {ℓ} : {A : Type ℓ} → Result Fault A × World → Type ℓ
Ends r = r.0 ≢ err stuck

then_run-Ends {ℓ κ} :
    {A : Type ℓ} {B : Type κ} (r : Result Fault A) (w : World) (f : A → Exec B)
    → r ≢ err stuck
    → ((a : A) → Ends (f a w))
    → Ends (then_run r w f)
then_run-Ends (ok a) w f h k = k a
then_run-Ends (err e) w f h k =
    λ same. h (ap (λ r. elim r [ ok b ↦ err stuck | err x ↦ err x ]) same)

wrapped-Ends {ℓ} : {A : Type ℓ} (r : Result Fault A) → wrapped r ≢ err stuck
wrapped-Ends (ok a) = λ e. cc
wrapped-Ends {A = A} (err f) =
    if_split (λ (g : Fault). Path (Result Fault A) (err g) (err stuck) → ⊥) (is_panic f)
      (λ h e. false_ne_true (sym (calm e) ∙ h)) (λ h e. cc)
  where
    calm : {g : Fault} → Path (Result Fault A) (err g) (err stuck) → is_panic g ≡ false
    calm e = ap (λ r. elim r [ ok b ↦ false | err x ↦ is_panic x ]) e

module _ (env : Env) where
  open env use {tokens, end_token, get_text}

  closing-Ends {ℓ} : {A : Type ℓ} (r : Result Fault A × World) → Ends r → Ends (closing env r)
  closing-Ends (ok a, w) h = h
  closing-Ends (err f, w) h = h

  execute_single_stmt-Ends :
      (stmt : Text) (want_rows : Bool) (w : World) → Ends (execute_single_stmt env stmt want_rows w)
  unfolding execute_single_stmt
  execute_single_stmt-Ends stmt want_rows w = wrapped-Ends _

  send_chunk-Ends :
      (k : Carried) (want_rows : Bool) (chunk : List Text) (w : World)
      → Ends (send_chunk env k want_rows chunk w)
  unfolding send_chunk
  send_chunk-Ends k want_rows chunk w = closing-Ends _ (wrapped-Ends _)

  -- What is to come behind a chunk, within a fuel.
  abbrev Within : (ℕ → ℕ → Text) → ℕ → Chunker → Bool → Type 0
  Within text f c true = Unit {0}
  Within text f c false = (ts : List Text) × Reads text c.iterator ts × (length ts < f)

  on_next-Ends :
      (text : ℕ → ℕ → Text) (f : ℕ) (c : Chunker) (ts : List Text)
      (rest : List Text → Bool → Chunker → Exec PipelineResponse) (w : World)
      (o : Option ((List Text × Bool) × StatementIterator))
      → Chunked text c.limit [] ts o
      → length ts < suc f
      → 0 < c.limit
      → ((chunk : List Text) (is_eof : Bool) (it : StatementIterator)
          → let c' : Chunker = record c { iterator = it } in
            Within text f c' is_eof → Ends (rest chunk is_eof c' w))
      → Ends (on_next rest (moved c o) w)
  on_next-Ends text f c ts rest w _ (at_end {chunk' = chunk} {it' = it} e h) few k ih =
      ih chunk true it tt
  on_next-Ends text f c ts rest w _ (full {chunk' = chunk} {ts' = ts'} {it' = it} e h r l) few k
        ih =
      ih chunk false it (ts', r, omega (arith, l, h))

  chunks_loop-Ends :
      (text : ℕ → ℕ → Text) (f : ℕ) (c : Chunker) (chunk : List Text) (is_eof : Bool) (k : Carried)
      (want_rows : Bool) (so_far : PipelineResponse) (w : World)
      → 0 < f
      → 0 < c.limit
      → Within text f c is_eof
      → Ends (chunks_loop env text f c chunk is_eof k want_rows so_far w)
  unfolding chunks_loop
  chunks_loop-Ends text zero c chunk is_eof k want_rows so_far w f0 l0 h = elim f0 [ ]
  chunks_loop-Ends text (suc f) c chunk true k want_rows so_far w f0 l0 h =
      then_run-Ends (send_chunk env k want_rows chunk w).0 (send_chunk env k want_rows chunk w).1 _
        (send_chunk-Ends k want_rows chunk w) (λ p e. cc)
  chunks_loop-Ends text (suc f) c chunk false k want_rows so_far w f0 l0 (ts, r, few) =
      let (o, same, chunked) = next_chunk-Chunked text c r in
      let v = (send_chunk env k want_rows chunk w).1 in
      then_run-Ends (send_chunk env k want_rows chunk w).0 v _ (send_chunk-Ends k want_rows chunk w)
        (λ p. rw same (
          on_next-Ends text f c ts _ v o chunked few l0 (λ chunk' is_eof' it h.
            chunks_loop-Ends text f (record c { iterator = it }) chunk' is_eof' (carry w.conn k)
              want_rows (append_results so_far p) v (omega (arith, few, Reads-few r)) l0 h)))

  execute_all_chunks-Ends :
      (text : ℕ → ℕ → Text) (c : Chunker) (chunk : List Text) (is_eof want_rows : Bool) (w : World)
      → 0 < c.limit
      → Within text (chunk_fuel c) c is_eof
      → Ends (execute_all_chunks env text c chunk is_eof want_rows w)
  unfolding execute_all_chunks
  execute_all_chunks-Ends text c chunk is_eof want_rows w l0 h =
      let begun = execute_single_stmt env (codes "BEGIN") false w in
      then_run-Ends begun.0 begun.1 _ (execute_single_stmt-Ends (codes "BEGIN") false w) (λ p.
        let r =
          chunks_loop env text (chunk_fuel c) c chunk is_eof nothing_carried want_rows no_results
            begun.1 in
        then_run-Ends r.0 r.1 _
          (chunks_loop-Ends text (chunk_fuel c) c chunk is_eof nothing_carried want_rows no_results
            begun.1 (omega arith) l0 h)
          (λ q.
            let closed = closing env (execute_single_stmt env (codes "COMMIT") false r.1) in
            then_run-Ends closed.0 closed.1 _
              (closing-Ends _ (execute_single_stmt-Ends (codes "COMMIT") false r.1)) (λ s e. cc)))

  start_chunks-Ends :
      (text : ℕ → ℕ → Text) (c : Chunker) (chunk : List Text) (is_eof want_rows : Bool) (w : World)
      → 0 < c.limit
      → Within text (chunk_fuel c) c is_eof
      → Ends (start_chunks env text c chunk is_eof want_rows w)
  unfolding start_chunks
  start_chunks-Ends text c (stmt ∷ []) true want_rows w l0 h =
      execute_single_stmt-Ends stmt want_rows w
  start_chunks-Ends text c (stmt ∷ []) false want_rows w l0 h =
      execute_all_chunks-Ends text c (stmt ∷ []) false want_rows w l0 h
  start_chunks-Ends text c [] is_eof want_rows w l0 h =
      execute_all_chunks-Ends text c [] is_eof want_rows w l0 h
  start_chunks-Ends text c (s ∷ (t ∷ ts)) is_eof want_rows w l0 h =
      execute_all_chunks-Ends text c (s ∷ (t ∷ ts)) is_eof want_rows w l0 h

  Chunked-Within :
      (text : ℕ → ℕ → Text) (c : Chunker) (ts : List Text) (chunk : List Text) (is_eof : Bool)
      (it : StatementIterator)
      → Chunked text c.limit [] ts (some ((chunk, is_eof), it))
      → Within text (fuel_of it.tokenizer + 1) (record c { iterator = it }) is_eof
  Chunked-Within text c ts chunk _ it (at_end e h) = tt
  Chunked-Within text c ts chunk _ it (full {ts' = ts'} e h r l) =
      (ts', r, omega (arith, Reads-few r))

  -- `executeInChunks` always ends: no round finds the fuel used up, and the splitter always gives a statement.
  pub execute_in_chunks-Ends :
      (query : Text) (want_rows : Bool) (w : World)
      → is_eof (end_token query).kind ≡ true
      → NoEof (visible (tokens query))
      → Ends (execute_in_chunks env query want_rows w)
  unfolding execute_in_chunks
  execute_in_chunks-Ends query want_rows w end n =
      let text = get_text query in
      let (ts, info, split, r) =
        split_statement-Reads text (end_token query) end (tokens query) n in
      let c : Chunker = record {
        iterator = create_statement_iterator (tokens query) (end_token query);
        limit = chunk_size;
      } in
      let (o, same, chunked) = next_chunk-Chunked text c r in
      rw same (go c ts o chunked (omega arith))
    where
      go :
          (c : Chunker) (ts : List Text) (o : Option ((List Text × Bool) × StatementIterator))
          → Chunked (get_text query) c.limit [] ts o
          → 0 < c.limit
          → Ends (
              on_next
                (λ chunk is_eof c'. start_chunks env (get_text query) c' chunk is_eof want_rows)
                (moved c o)
                w)
      go c ts none chunked l0 = elim chunked [ ]
      go c ts (some ((chunk, is_eof'), it)) chunked l0 =
          start_chunks-Ends (get_text query) (record c { iterator = it }) chunk is_eof' want_rows w
            l0 (Chunked-Within (get_text query) c ts chunk is_eof' it chunked)
