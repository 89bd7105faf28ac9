-- ===== src/Conn/Scripts.antt =====
-- The chunks of a long script against the statements of `SplitStatement`.
use mathlib.Core.List.{append_assoc, append-nil}
use libsql_client_go.Base.{
  ℕ, zero, suc, ◌+◌, ◌≤◌, ◌<◌, ◌≡◌, refl, ap, sym, ◌∙◌, inl, inr, Bool, true, false, ◌||◌, Option,
  none, some, List, [], ◌∷◌, ◌++◌, ltb, if◌then◌else◌, Bool-cases, length, length-append, arith,
}
use libsql_client_go.Base.Texts.{Text, is_empty}
use libsql_client_go.Tokens.{Token, is_eof, visible}
use libsql_client_go.Splitter.{
  StatementIterator, fuel_of, create_statement_iterator, split_statement, SplitStatementExtraInfo,
}
use libsql_client_go.Splitter.Calls.{Reads, last, more, Reads-few, filled, split_statement-Reads}
use libsql_client_go.Splitter.Refine.{NoEof}
use libsql_client_go.Conn.Chunks.{
  Chunker, is_transaction_statement, keep_statement, chunk_loop, next_chunk, chunk_size,
}

-- A caller of `chunker.Next` that keeps the chunks until the end is reported.
abbrev pub then_read :
    (Chunker → Option (List (List Text)))
    → Option ((List Text × Bool) × Chunker)
    → Option (List (List Text))
then_read rest none = none
then_read rest (some ((chunk, true), c)) = some (chunk ∷ [])
then_read rest (some ((chunk, false), c)) = elim (rest c) [
  | none ↦ none
  | some css ↦ some (chunk ∷ css)
]

unfoldable pub read_chunks : (ℕ → ℕ → Text) → ℕ → Chunker → Option (List (List Text))
unfolding next_chunk
read_chunks get_text zero c = none
read_chunks get_text (suc f) c = then_read (λ c'. read_chunks get_text f c') (next_chunk get_text c)

-- The statements that do not control a transaction.
unfoldable pub without_transactions : List Text → List Text
without_transactions [] = []
without_transactions (t ∷ ts) =
    let rest = without_transactions ts in if is_transaction_statement t then rest else t ∷ rest

unfoldable pub concat : List (List Text) → List Text
concat [] = []
concat (c ∷ cs) = c ++ concat cs

abbrev pub AllUpTo : ℕ → List (List Text) → Type 0
AllUpTo limit [] = Unit {0}
AllUpTo limit (c ∷ cs) = (length c ≤ limit) × AllUpTo limit cs

-- What the chunks keep of the texts of the calls.
unfoldable pub kept : List Text → List Text
unfolding filled without_transactions
kept ts = without_transactions (filled ts)

keep-kept :
    (t : Text) (chunk ts : List Text) → keep_statement t chunk ++ kept ts ≡ chunk ++ kept (t ∷ ts)
unfolding kept filled without_transactions
keep-kept t chunk ts = elim (Bool-cases (is_empty t)) [
  | inl e ↦ rw e refl
  | inr e ↦ rw e (elim (Bool-cases (is_transaction_statement t)) [
    | inl h ↦ rw h refl
    | inr h ↦ rw h (append_assoc chunk (t ∷ []) _)
  ])
]

keep-last : (t : Text) (chunk : List Text) → keep_statement t chunk ≡ chunk ++ kept (t ∷ [])
unfolding kept filled without_transactions
keep-last t chunk = sym (append-nil (keep_statement t chunk)) ∙ keep-kept t chunk []

keep-length : (t : Text) (chunk : List Text) → length (keep_statement t chunk) ≤ suc (length chunk)
keep-length t chunk = elim (Bool-cases (is_empty t || is_transaction_statement t)) [
  | inl e ↦ rw e (omega arith)
  | inr e ↦ rw e (omega (arith, length-append chunk (t ∷ [])))
]

-- What the loop of `chunker.Next` makes of a chunk and the texts that are still to come.
pub data Chunked (get_text : ℕ → ℕ → Text) (limit : ℕ) (chunk ts : List Text)
    : Option ((List Text × Bool) × StatementIterator) → Type 0 where
  at_end :
      {chunk' : List Text} {it' : StatementIterator}
      → chunk' ≡ chunk ++ kept ts
      → length chunk' ≤ limit
      → Chunked get_text limit chunk ts (some ((chunk', true), it'))
  full :
      {chunk' ts' : List Text} {it' : StatementIterator}
      → chunk' ++ kept ts' ≡ chunk ++ kept ts
      → length chunk' ≡ limit
      → Reads get_text it' ts'
      → length ts' + length chunk' ≤ length ts + length chunk
      → Chunked get_text limit chunk ts (some ((chunk', false), it'))

Chunked-more :
    {get_text : ℕ → ℕ → Text} {limit : ℕ} {t : Text} {chunk ts : List Text}
    {o : Option ((List Text × Bool) × StatementIterator)}
    → Chunked get_text limit (keep_statement t chunk) ts o
    → Chunked get_text limit chunk (t ∷ ts) o
Chunked-more {t = t} {chunk = chunk} {ts = ts} (at_end e k) = at_end (e ∙ keep-kept t chunk ts) k
Chunked-more {t = t} {chunk = chunk} {ts = ts} (full e k r l) =
    full (e ∙ keep-kept t chunk ts) k r (omega (arith, l, keep-length t chunk))

chunk_loop-Chunked :
    (get_text : ℕ → ℕ → Text) (limit f : ℕ) (chunk : List Text) {it : StatementIterator}
    {ts : List Text}
    → Reads get_text it ts
    → length ts < f
    → length chunk ≤ limit
    → Chunked get_text limit chunk ts (chunk_loop get_text limit f it chunk)
unfolding chunk_loop
chunk_loop-Chunked get_text limit zero chunk r h k = elim h [ ]
chunk_loop-Chunked get_text limit (suc f) chunk (last st eq eof b) h k =
    elim (Bool-cases (ltb (length chunk) limit)) [
      | inr e ↦ rw (e, chunk_loop) (full refl (ground arith) (last st eq eof b) (omega arith))
      | inl e ↦
          rw (e, eq, eof, chunk_loop)
            (at_end (keep-last st.statement chunk) (ground (arith, keep-length st.statement chunk)))
    ]
chunk_loop-Chunked get_text limit (suc f) chunk (more st eq eof b r) h k =
    elim (Bool-cases (ltb (length chunk) limit)) [
      | inr e ↦ rw (e, chunk_loop) (full refl (ground arith) (more st eq eof b r) (omega arith))
      | inl e ↦
          rw (e, eq, eof, chunk_loop)
            (Chunked-more (
              chunk_loop-Chunked get_text limit f (keep_statement st.statement chunk) r
                (omega arith) (ground (arith, keep-length st.statement chunk))))
    ]

-- The chunks from a chunker whose next calls give these texts.
Script : (ℕ → ℕ → Text) → ℕ → List Text → Option (List (List Text)) → Type 0
Script get_text limit ts o =
    (css : List (List Text)) × (o ≡ some css) × (concat css ≡ kept ts) × AllUpTo limit css

abbrev pub moved :
    Chunker
    → Option ((List Text × Bool) × StatementIterator)
    → Option ((List Text × Bool) × Chunker)
moved c none = none
moved c (some (r, it)) = some (r, record c { iterator = it })

then_read-Script :
    (get_text : ℕ → ℕ → Text) (f : ℕ) (c : Chunker) (ts : List Text)
    (o : Option ((List Text × Bool) × StatementIterator))
    (rest : Chunker → Option (List (List Text)))
    → Chunked get_text c.limit [] ts o
    → length ts ≤ suc f
    → 0 < c.limit
    → ((it : StatementIterator) (ts' : List Text)
        → Reads get_text it ts'
        → length ts' ≤ f
        → Script get_text c.limit ts' (rest (record c { iterator = it })))
    → Script get_text c.limit ts (then_read rest (moved c o))
unfolding Script concat
then_read-Script get_text f c ts _ rest (at_end {chunk' = chunk} e h) few k ih =
    (chunk ∷ [], refl, append-nil chunk ∙ e, (h, tt))
then_read-Script get_text f c ts _ rest (full {chunk' = chunk} {ts' = ts'} {it' = it} e h r l) few k
      ih =
    let (css, found, same, short) = ih it ts' r (omega (arith, l, h)) in
    (chunk ∷ css, rw found refl, ap (λ cs. chunk ++ cs) same ∙ e, (omega (arith, h), short))

next_chunk-moved :
    (get_text : ℕ → ℕ → Text) (c : Chunker)
    → next_chunk get_text c
      ≡ moved c (chunk_loop get_text c.limit (fuel_of c.iterator.tokenizer + 1) c.iterator [])
unfolding next_chunk
next_chunk-moved get_text c =
    go (chunk_loop get_text c.limit (fuel_of c.iterator.tokenizer + 1) c.iterator [])
  where
    go :
        (o : Option ((List Text × Bool) × StatementIterator))
        → elim o [ none ↦ none | some (r, it) ↦ some (r, record c { iterator = it }) ] ≡ moved c o
    go none = refl
    go (some (r, it)) = refl

-- `chunker.Next` on an iterator whose next calls give these texts.
pub next_chunk-Chunked :
    (get_text : ℕ → ℕ → Text) (c : Chunker) {ts : List Text}
    → Reads get_text c.iterator ts
    → (o : Option ((List Text × Bool) × StatementIterator)) × (next_chunk get_text c ≡ moved c o)
      × Chunked get_text c.limit [] ts o
next_chunk-Chunked get_text c r = (
  chunk_loop get_text c.limit (fuel_of c.iterator.tokenizer + 1) c.iterator [],
  next_chunk-moved get_text c,
  chunk_loop-Chunked get_text c.limit (fuel_of c.iterator.tokenizer + 1) [] r
      (omega (arith, Reads-few r)) (omega arith),
)

read_chunks-Script :
    (get_text : ℕ → ℕ → Text) (f : ℕ) (c : Chunker) (ts : List Text)
    → Reads get_text c.iterator ts
    → length ts ≤ f
    → 0 < c.limit
    → Script get_text c.limit ts (read_chunks get_text f c)
unfolding read_chunks
read_chunks-Script get_text zero c ts r h k = absurd (omega (arith, Reads-few r))
read_chunks-Script get_text (suc f) c ts r h k =
    let (o, same, chunked) = next_chunk-Chunked get_text c r in
    rw same (
      then_read-Script get_text f c ts o (λ c'. read_chunks get_text f c') chunked h k
        (λ it ts' r' h'. read_chunks-Script get_text f (record c { iterator = it }) ts' r' h' k))

abbrev pub script_chunker : List Token → Token → Chunker
script_chunker ts e = record { iterator = create_statement_iterator ts e; limit = chunk_size }

-- `chunker.Next`, called until it reports the end, always ends, in as many calls as there is fuel for
-- a call of the iterator; the chunks are of at most 4096 statements, and together they are the
-- statements of `SplitStatement` in order, without those that begin or end a transaction.
pub read_chunks-split_statement :
    (get_text : ℕ → ℕ → Text) (ts : List Token) (e : Token)
    → is_eof e.kind ≡ true
    → NoEof (visible ts)
    → let c = script_chunker ts e in
      (css : List (List Text)) × (stmts : List Text) × (info : SplitStatementExtraInfo)
      × (read_chunks get_text (fuel_of c.iterator.tokenizer) c ≡ some css)
      × (split_statement get_text ts e ≡ some (stmts, info))
      × (concat css ≡ without_transactions stmts)
      × AllUpTo chunk_size css
unfolding Script kept
read_chunks-split_statement get_text ts e end n =
    let (texts, info, split, r) = split_statement-Reads get_text e end ts n in
    let c = script_chunker ts e in
    let (css, found, same, short) =
      read_chunks-Script get_text (fuel_of c.iterator.tokenizer) c texts r
        (omega (arith, Reads-few r)) (omega arith) in
    (css, filled texts, info, found, split, same, short)
