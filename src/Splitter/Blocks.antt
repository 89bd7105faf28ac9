-- ===== src/Splitter/Blocks.antt =====
-- The shape of a CREATE TRIGGER statement, and what each of its tokens does to a scan.
use libsql_client_go.Base.{
  ℕ, suc, ◌≡◌, ◌≢◌, refl, Bool, true, false, Option, some, List, [], ◌∷◌, get_or, arith,
}
use libsql_client_go.Tokens.{TokenKind, begin_, case_, end_, scol, Token, is_scol}
use libsql_client_go.Splitter.{
  Scan, finish, go, turn, turn_at, trigger_turn, block_turn, before_block_turn,
  at_create_trigger_start, at_incomplete_multiline_comment_start, fresh,
}

-- The tokens of a body from its BEGIN on, up to the END of the trigger and with what stands behind it:
-- each CASE opens a block and each END closes one, `d` of which are open.
pub data Block : ℕ → List Token → Token → List Token → Type 0 where
  closes : {t : Token} {rest : List Token} → t.kind ≡ end_ → Block 1 (t ∷ rest) t rest
  pops :
      {d : ℕ} {t z : Token} {ts rest : List Token}
      → t.kind ≡ end_
      → Block (suc d) ts z rest
      → Block (suc (suc d)) (t ∷ ts) z rest
  opens :
      {d : ℕ} {t z : Token} {ts rest : List Token}
      → t.kind ≡ case_
      → Block (suc d) ts z rest
      → Block d (t ∷ ts) z rest
  plain :
      {d : ℕ} {t z : Token} {ts rest : List Token}
      → t.kind ≢ case_
      → t.kind ≢ end_
      → Block d ts z rest
      → Block d (t ∷ ts) z rest

-- The tokens before BEGIN.
pub data Head : List Token → List Token → Type 0 where
  begins : {t : Token} {ts : List Token} → t.kind ≡ begin_ → Head (t ∷ ts) ts
  word : {t : Token} {ts rest : List Token} → t.kind ≢ begin_ → Head ts rest → Head (t ∷ ts) rest

-- No comment starts that the lexer did not find an end of.
unfoldable pub Complete : Token → List Token → Type 0
unfolding at_incomplete_multiline_comment_start
Complete e [] = Unit
Complete e (t ∷ r) =
    (at_incomplete_multiline_comment_start t.kind (get_or r 0 e).kind ≡ false) × Complete e r

-- A scan in a statement that started at `p` and whose last token is `z`.
pub record Inside (p : ℕ) (z : Token) (trigger begun : Bool) (d : ℕ) (s : Scan) : Type 0 where
  pub start : s.start ≡ some p
  pub previous : s.previous ≡ some z
  pub trigger_is : s.inside_trigger ≡ trigger
  pub begun_is : s.saw_begin ≡ begun
  pub depth_is : s.depth ≡ d
  pub no_comment : s.inside_comment ≡ false

-- A round inside a trigger goes on, by what its kind does.
pub trigger-round :
    (s : Scan) (t t1 t2 : Token) (p : ℕ)
    → at_incomplete_multiline_comment_start t.kind t1.kind ≡ false
    → s.start ≡ some p
    → s.inside_trigger ≡ true
    → turn s t t1 t2
      ≡ go (record (trigger_turn t.kind (record s { current = some t })) { previous = some t })
unfolding turn turn_at
trigger-round s t t1 t2 p c a b = rw (c, a, turn_at, b) refl

-- The scan behind such a round.
abbrev pub behind : Scan → Token → Scan
behind s t = record (trigger_turn t.kind (record s { current = some t })) { previous = some t }

pub behind-opens :
    (p d : ℕ) (z : Token) (s : Scan) (t : Token)
    → Inside p z true true d s
    → t.kind ≡ case_
    → Inside p t true true (suc d) (behind s t)
unfolding trigger_turn block_turn before_block_turn
behind-opens p d z s t i k = record {
  start = ground (arith, i.start, i.trigger_is, i.begun_is, i.depth_is, i.no_comment);
  previous = refl;
  trigger_is = ground (arith, i.start, i.trigger_is, i.begun_is, i.depth_is, i.no_comment);
  begun_is = ground (arith, i.start, i.trigger_is, i.begun_is, i.depth_is, i.no_comment);
  depth_is = ground (arith, i.start, i.trigger_is, i.begun_is, i.depth_is, i.no_comment);
  no_comment = ground (arith, i.start, i.trigger_is, i.begun_is, i.depth_is, i.no_comment);
}

pub behind-pops :
    (p d : ℕ) (z : Token) (s : Scan) (t : Token)
    → Inside p z true true (suc (suc d)) s
    → t.kind ≡ end_
    → Inside p t true true (suc d) (behind s t)
unfolding trigger_turn block_turn before_block_turn
behind-pops p d z s t i k = record {
  start = ground (arith, i.start, i.trigger_is, i.begun_is, i.depth_is, i.no_comment);
  previous = refl;
  trigger_is = ground (arith, i.start, i.trigger_is, i.begun_is, i.depth_is, i.no_comment);
  begun_is = ground (arith, i.start, i.trigger_is, i.begun_is, i.depth_is, i.no_comment);
  depth_is = ground (arith, i.start, i.trigger_is, i.begun_is, i.depth_is, i.no_comment);
  no_comment = ground (arith, i.start, i.trigger_is, i.begun_is, i.depth_is, i.no_comment);
}

pub behind-closes :
    (p : ℕ) (z : Token) (s : Scan) (t : Token)
    → Inside p z true true 1 s
    → t.kind ≡ end_
    → Inside p t false true 0 (behind s t)
unfolding trigger_turn block_turn before_block_turn
behind-closes p z s t i k = record {
  start = ground (arith, i.start, i.trigger_is, i.begun_is, i.depth_is, i.no_comment);
  previous = refl;
  trigger_is = ground (arith, i.start, i.trigger_is, i.begun_is, i.depth_is, i.no_comment);
  begun_is = ground (arith, i.start, i.trigger_is, i.begun_is, i.depth_is, i.no_comment);
  depth_is = ground (arith, i.start, i.trigger_is, i.begun_is, i.depth_is, i.no_comment);
  no_comment = ground (arith, i.start, i.trigger_is, i.begun_is, i.depth_is, i.no_comment);
}

pub behind-plain :
    (p d : ℕ) (z : Token) (s : Scan) (t : Token)
    → Inside p z true true d s
    → t.kind ≢ case_
    → t.kind ≢ end_
    → Inside p t true true d (behind s t)
unfolding trigger_turn block_turn before_block_turn
behind-plain p d z s t i n m = record {
  start = ground (arith, i.start, i.trigger_is, i.begun_is, i.depth_is, i.no_comment);
  previous = refl;
  trigger_is = ground (arith, i.start, i.trigger_is, i.begun_is, i.depth_is, i.no_comment);
  begun_is = ground (arith, i.start, i.trigger_is, i.begun_is, i.depth_is, i.no_comment);
  depth_is = ground (arith, i.start, i.trigger_is, i.begun_is, i.depth_is, i.no_comment);
  no_comment = ground (arith, i.start, i.trigger_is, i.begun_is, i.depth_is, i.no_comment);
}

pub behind-begins :
    (p d : ℕ) (z : Token) (s : Scan) (t : Token)
    → Inside p z true false d s
    → t.kind ≡ begin_
    → Inside p t true true 1 (behind s t)
unfolding trigger_turn block_turn before_block_turn
behind-begins p d z s t i k = record {
  start = ground (arith, i.start, i.trigger_is, i.begun_is, i.depth_is, i.no_comment);
  previous = refl;
  trigger_is = ground (arith, i.start, i.trigger_is, i.begun_is, i.depth_is, i.no_comment);
  begun_is = ground (arith, i.start, i.trigger_is, i.begun_is, i.depth_is, i.no_comment);
  depth_is = ground (arith, i.start, i.trigger_is, i.begun_is, i.depth_is, i.no_comment);
  no_comment = ground (arith, i.start, i.trigger_is, i.begun_is, i.depth_is, i.no_comment);
}

pub behind-word :
    (p d : ℕ) (z : Token) (s : Scan) (t : Token)
    → Inside p z true false d s
    → t.kind ≢ begin_
    → Inside p t true false d (behind s t)
unfolding trigger_turn block_turn before_block_turn
behind-word p d z s t i n = record {
  start = ground (arith, i.start, i.trigger_is, i.begun_is, i.depth_is, i.no_comment);
  previous = refl;
  trigger_is = ground (arith, i.start, i.trigger_is, i.begun_is, i.depth_is, i.no_comment);
  begun_is = ground (arith, i.start, i.trigger_is, i.begun_is, i.depth_is, i.no_comment);
  depth_is = ground (arith, i.start, i.trigger_is, i.begun_is, i.depth_is, i.no_comment);
  no_comment = ground (arith, i.start, i.trigger_is, i.begun_is, i.depth_is, i.no_comment);
}

create-not_scol : (k a b : TokenKind) → at_create_trigger_start k a b ≡ true → is_scol k ≡ false
unfolding at_create_trigger_start
create-not_scol k a b h = ground arith

-- The first round, and the one on the separator behind the statement.
pub first-turn :
    (o : Option Token) (t t1 t2 : Token)
    → at_create_trigger_start t.kind t1.kind t2.kind ≡ true
    → at_incomplete_multiline_comment_start t.kind t1.kind ≡ false
    → turn (fresh o) t t1 t2
      ≡ go (record (fresh o) {
        inside_trigger = true;
        start = some t.start;
        previous = some t;
        current = some t;
      })
unfolding turn turn_at
first-turn o t t1 t2 k c = ground (arith, create-not_scol t.kind t1.kind t2.kind k)

pub scol-turn :
    (p : ℕ) (z : Token) (s : Scan) (c t1 t2 : Token)
    → c.kind ≡ scol
    → Inside p z false true 0 s
    → turn s c t1 t2 ≡ finish (record s { current = some c })
unfolding turn turn_at at_incomplete_multiline_comment_start
scol-turn p z s c t1 t2 k i = ground (arith, i.start, i.trigger_is)
