-- ===== src/Splitter/Triggers.antt =====
-- A CREATE TRIGGER statement is one statement, whatever separators its body has.
use mathlib.Core.Path.{subst}
use libsql_client_go.Base.{
  ◌||◌, ℕ, ◌≡◌, refl, ap, ◌∙◌, Bool, true, false, Option, some, List, ◌∷◌, get_or, arith,
}
use libsql_client_go.Tokens.{scol, Token, is_eof}
use libsql_client_go.Splitter.{
  Scan, go, on_turn, turn, at_create_trigger_start, at_incomplete_multiline_comment_start, fresh,
  Statement, StatementIterator, next, info_of,
}
use libsql_client_go.Base.Texts.{Text}
use libsql_client_go.Splitter.Reference.{scan_list, is_nil, statement_of}
use libsql_client_go.Splitter.Refine.{NoEof, Ready}
use libsql_client_go.Splitter.Whole.{next-refines}
use libsql_client_go.Splitter.Blocks.{
  Block, closes, pops, opens, plain, Head, begins, word, Complete, Inside, trigger-round, behind,
  behind-opens, behind-pops, behind-closes, behind-plain, behind-begins, behind-word, first-turn,
  scol-turn,
}

statement-at :
    (get_text : ℕ → ℕ → Text) (s : Scan) (p : ℕ) (z : Token)
    → s.start ≡ some p
    → s.previous ≡ some z
    → statement_of get_text s ≡ get_text p z.stop
statement-at get_text s p z a b = rw (a, b) refl

or-false : (b c : Bool) → c ≡ false → (b || c) ≡ b
or-false b c h = ground arith

module _ (e : Token) where
  -- The scan of a whole list is that of what a round leaves.
  round-go :
      (s s' : Scan) (t : Token) (r : List Token)
      → turn s t (get_or r 0 e) (get_or r 1 e) ≡ go s'
      → scan_list e s (t ∷ r) ≡ scan_list e s' r
  unfolding scan_list
  round-go s s' t r h = rw h refl

  round-behind :
      (p : ℕ) (s : Scan) (t : Token) (r : List Token)
      → at_incomplete_multiline_comment_start t.kind (get_or r 0 e).kind ≡ false
      → s.start ≡ some p
      → s.inside_trigger ≡ true
      → scan_list e s (t ∷ r) ≡ scan_list e (behind s t) r
  round-behind p s t r c a b =
      round-go s (behind s t) t r (trigger-round s t (get_or r 0 e) (get_or r 1 e) p c a b)

  Block-scan :
      (p : ℕ) (last : Token) (s : Scan) {d : ℕ} {ts : List Token} {z : Token} {rest : List Token}
      → Block d ts z rest
      → Complete e ts
      → Inside p last true true d s
      → (s' : Scan) × (scan_list e s ts ≡ scan_list e s' rest) × Inside p z false true 0 s'
  unfolding Complete
  Block-scan p last s (closes {t = t} {rest = rest} k) c i =
      (behind s t, round-behind p s t rest c.0 i.start i.trigger_is, behind-closes p last s t i k)
  Block-scan p last s (pops {d = d} {t = t} {ts = ts} k b) c i =
      let (s', eq, i') = Block-scan p t (behind s t) b c.1 (behind-pops p d last s t i k) in
      (s', round-behind p s t ts c.0 i.start i.trigger_is ∙ eq, i')
  Block-scan p last s (opens {d = d} {t = t} {ts = ts} k b) c i =
      let (s', eq, i') = Block-scan p t (behind s t) b c.1 (behind-opens p d last s t i k) in
      (s', round-behind p s t ts c.0 i.start i.trigger_is ∙ eq, i')
  Block-scan p last s (plain {d = d} {t = t} {ts = ts} n m b) c i =
      let (s', eq, i') = Block-scan p t (behind s t) b c.1 (behind-plain p d last s t i n m) in
      (s', round-behind p s t ts c.0 i.start i.trigger_is ∙ eq, i')

  -- A block has a token, and what stands behind it is complete too.
  Block-Complete :
      {d : ℕ} {ts : List Token} {z : Token} {rest : List Token}
      → Block d ts z rest
      → Complete e ts
      → Complete e rest
  unfolding Complete
  Block-Complete (closes k) c = c.1
  Block-Complete (pops k b) c = Block-Complete b c.1
  Block-Complete (opens k b) c = Block-Complete b c.1
  Block-Complete (plain n m b) c = Block-Complete b c.1

  Head-scan :
      (p d : ℕ) (last : Token) (s : Scan) {ts body : List Token}
      → Head ts body
      → Complete e ts
      → Inside p last true false d s
      → (s' : Scan) × (z : Token) × (scan_list e s ts ≡ scan_list e s' body)
        × Inside p z true true 1 s'
        × Complete e body
  unfolding Complete
  Head-scan p d last s (begins {t = t} {ts = ts} k) c i = (
    behind s t,
    t,
    round-behind p s t ts c.0 i.start i.trigger_is,
    behind-begins p d last s t i k,
    c.1,
  )
  Head-scan p d last s (word {t = t} {ts = ts} n h) c i =
      let (s', z, eq, i', c') = Head-scan p d t (behind s t) h c.1 (behind-word p d last s t i n) in
      (s', z, round-behind p s t ts c.0 i.start i.trigger_is ∙ eq, i', c')

  scol-scan :
      (p : ℕ) (z : Token) (s : Scan) (c : Token) (rest : List Token)
      → c.kind ≡ scol
      → Inside p z false true 0 s
      → scan_list e s (c ∷ rest) ≡ (record s { current = some c }, rest)
  unfolding scan_list
  scol-scan p z s c rest k i =
      ap (λ q. on_turn q (λ s'. (s', c ∷ rest)) (λ s'. (s', rest)) (λ s'. scan_list e s' rest))
        (scol-turn p z s c (get_or rest 0 e) (get_or rest 1 e) k i)

  abbrev started : Option Token → Token → Scan
  started o t = record (fresh o) {
    inside_trigger = true;
    start = some t.start;
    previous = some t;
    current = some t;
  }

  -- A scan of a whole trigger statement.
  trigger-scan :
      (o : Option Token) (t z c : Token) (ts body rest : List Token)
      → at_create_trigger_start t.kind (get_or ts 0 e).kind (get_or ts 1 e).kind ≡ true
      → Head ts body
      → Block 1 body z (c ∷ rest)
      → c.kind ≡ scol
      → Complete e (t ∷ ts)
      → (s : Scan) × (scan_list e (fresh o) (t ∷ ts) ≡ (s, rest))
        × (s.start ≡ some t.start)
        × (s.previous ≡ some z)
        × (s.inside_comment ≡ false)
  unfolding Complete
  trigger-scan o t z c ts body rest k head block sep whole =
      let first =
        round-go (fresh o) (started o t) t ts
          (first-turn o t (get_or ts 0 e) (get_or ts 1 e) k whole.0) in
      let i : Inside t.start t true false 0 (started o t) = record {
        start = refl;
        previous = refl;
        trigger_is = refl;
        begun_is = refl;
        depth_is = refl;
        no_comment = refl;
      } in
      let (s1, z1, eq1, i1, c1) = Head-scan t.start 0 t (started o t) head whole.1 i in
      let (s2, eq2, i2) = Block-scan t.start z1 s1 block c1 i1 in
      (
        record s2 { current = some c },
        first ∙ (eq1 ∙ (eq2 ∙ scol-scan t.start z s2 c rest sep i2)),
        i2.start,
        i2.previous,
        i2.no_comment,
      )

  -- A call of `Next` at the start of CREATE [TEMP] TRIGGER … BEGIN … END ; takes all of it as one
  -- statement, from its first token to its END, whatever separators and CASE … END stand in its body,
  -- and leaves what stands behind the separator.
  pub next-trigger :
      (get_text : ℕ → ℕ → Text) (it : StatementIterator) (t z c : Token) (ts body rest : List Token)
      → is_eof e.kind ≡ true
      → Ready e it.tokenizer (t ∷ ts)
      → NoEof (t ∷ ts)
      → at_create_trigger_start t.kind (get_or ts 0 e).kind (get_or ts 1 e).kind ≡ true
      → Head ts body
      → Block 1 body z (c ∷ rest)
      → c.kind ≡ scol
      → Complete e (t ∷ ts)
      → (st : Statement) × (it' : StatementIterator) × (next get_text it ≡ some (st, it'))
        × (st.statement ≡ get_text t.start z.stop)
        × (st.is_eof ≡ is_nil rest)
        × Ready e it'.tokenizer rest
  next-trigger get_text it t z c ts body rest end d n k head block sep whole =
      let (s, eq, at_start, at_end, no_comment) =
        trigger-scan it.current_token t z c ts body rest k head block sep whole in
      let (b, called, d') = next-refines get_text e end (t ∷ ts) it d n in
      let l = scan_list e (fresh it.current_token) (t ∷ ts) in
      let same : l.1 ≡ rest = ap (λ (x : Scan × List Token). x.1) eq in
      (
        record {
          statement = statement_of get_text l.0;
          extra_info = info_of l.0;
          is_eof = is_nil l.1 || l.0.inside_comment;
        },
        record { tokenizer = b; current_token = l.0.current },
        called,
        statement-at get_text l.0 t.start z
            (ap (λ (x : Scan × List Token). x.0.start) eq ∙ at_start)
            (ap (λ (x : Scan × List Token). x.0.previous) eq ∙ at_end),
        ap (λ (x : Scan × List Token). is_nil x.1 || x.0.inside_comment) eq
            ∙ or-false (is_nil rest) s.inside_comment no_comment,
        subst (Ready e b) same d',
      )
