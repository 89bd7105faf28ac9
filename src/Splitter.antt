-- ===== src/Splitter.antt =====
-- sqliteparserutils/utils.go: statements cut out of a text by its tokens.
mod Reference
pub mod Refine
mod Rounds
mod Whole
mod Pieces
pub mod Calls
mod Blocks
mod Triggers
mod Tests
use libsql_client_go.Base.{
  ℕ, zero, suc, ◌+◌, ◌-◌, Bool, true, false, not, ◌&&◌, ◌||◌, Option, none, some, List, [], ◌∷◌,
  ◌++◌, ◌==◌, if◌then◌else◌, length,
}
use libsql_client_go.Base.Texts.{Text, is_empty}
use libsql_client_go.Tokens.{
  TokenKind, invalid, begin_, case_, end_, create_, trigger_, temp_, temporary_, div, star, Token,
  is_eof, is_scol,
}
use libsql_client_go.Tokenizer.{Buffer, get, consume, create_buffered_tokenizer}

pub record SplitStatementExtraInfo : Type 0 where
  pub incomplete_create_trigger_statement : Bool
  pub incomplete_multiline_comment : Bool
  pub last_token_type : TokenKind

-- The local variables of `Next`. `start` is `startPosition`, with `none` for -1; `current` is
-- the iterator's `currentToken`.
pub record Scan : Type 0 where
  pub inside_trigger : Bool
  pub inside_comment : Bool
  pub saw_begin : Bool
  pub depth : ℕ
  pub start : Option ℕ
  pub previous : Option Token
  pub current : Option Token

-- A loop round breaks, breaks behind a `Consume`, or consumes and goes on.
pub data Turn : Type 0 where
  stop finish go : Scan → Turn

-- What a loop does behind a round, for each of the three.
abbrev pub on_turn {ℓ} : {A : Type ℓ} → Turn → (Scan → A) → (Scan → A) → (Scan → A) → A
on_turn (stop s) f g h = f s
on_turn (finish s) f g h = g s
on_turn (go s) f g h = h s

pub at_create_trigger_start : TokenKind → TokenKind → TokenKind → Bool
at_create_trigger_start create_ trigger_ _ = true
at_create_trigger_start create_ temp_ trigger_ = true
at_create_trigger_start create_ temporary_ trigger_ = true
at_create_trigger_start _ _ _ = false

pub at_incomplete_multiline_comment_start : TokenKind → TokenKind → Bool
at_incomplete_multiline_comment_start div star = true
at_incomplete_multiline_comment_start _ _ = false

-- The cases behind `sawTriggerBegin`: a block closes with the END of the trigger itself.
pub block_turn : TokenKind → Scan → Scan
block_turn case_ s = record s { depth = s.depth + 1 }
block_turn end_ s = record s { depth = s.depth - 1; inside_trigger = not (s.depth - 1 == 0) }
block_turn _ s = s

pub before_block_turn : TokenKind → Scan → Scan
before_block_turn begin_ s = record s { saw_begin = true; depth = 1 }
before_block_turn _ s = s

-- The `insideCreateTriggerStmt` branch, on the current token.
pub trigger_turn : TokenKind → Scan → Scan
unfolding block_turn before_block_turn
trigger_turn k s = if s.saw_begin then block_turn k s else before_block_turn k s

-- A round on the current token and the two behind it, by whether a statement has started.
unfoldable pub turn_at : Option ℕ → Scan → Token → Token → Token → Turn
unfolding at_create_trigger_start
turn_at none s t0 t1 t2 =
    if is_scol t0.kind
    then go s
    else go (record s {
      inside_trigger = at_create_trigger_start t0.kind t1.kind t2.kind;
      start = some t0.start;
      previous = some t0;
    })
turn_at (some p) s t0 t1 t2 =
    if s.inside_trigger
    then go (record (trigger_turn t0.kind s) { previous = some t0 })
    else if is_scol t0.kind
    then finish s
    else go (record s { previous = some t0 })

unfoldable pub turn : Scan → Token → Token → Token → Turn
unfolding turn_at at_incomplete_multiline_comment_start
turn s t0 t1 t2 =
    if at_incomplete_multiline_comment_start t0.kind t1.kind
    then stop (record s { inside_comment = true })
    else turn_at s.start (record s { current = some t0 }) t0 t1 t2

abbrev pub fresh : Option Token → Scan
fresh current = record {
  inside_trigger = false;
  inside_comment = false;
  saw_begin = false;
  depth = 0;
  start = none;
  previous = current;
  current = current;
}

infixl 5 ◌>>=◌
abbrev pub ◌>>=◌ : {A B : Type 0} → Option A → (A → Option B) → Option B
none >>= f = none
some a >>= f = f a

-- The loop of `Next`. `none` is a panic of the tokenizer or the end of the fuel.
unfoldable pub scan : ℕ → Scan → Buffer → Option (Scan × Buffer)
scan zero s b = none
scan (suc f) s b = do
  t0 ← get b 0
  t1 ← get b 1
  t2 ← get b 2
  let more = λ (s' : Scan). scan f s' (consume b)
  elim (is_eof t0.kind) [
    | true ↦ some (s, b)
    | false ↦ on_turn (turn s t0 t1 t2) (λ s'. some (s', b)) (λ s'. some (s', consume b)) more
  ]

-- Each round consumes a token that is in the ring or behind it.
abbrev pub fuel_of : Buffer → ℕ
fuel_of b = suc (length b.tokens + length b.upcoming)

pub record StatementIterator : Type 0 where
  pub tokenizer : Buffer
  pub current_token : Option Token

abbrev kind_of : Option Token → TokenKind
kind_of none = invalid
kind_of (some t) = t.kind

abbrev pub info_of : Scan → SplitStatementExtraInfo
info_of s = record {
  incomplete_create_trigger_statement = s.inside_trigger;
  incomplete_multiline_comment = s.inside_comment;
  last_token_type = kind_of s.current;
}

-- `GetText(startPosition, previousToken.GetStop())` is the text source's, an argument. A start
-- with no previous token would be a nil dereference.
abbrev pub text_of : (ℕ → ℕ → Text) → Option ℕ → Option Token → Option Text
text_of get_text none previous = some []
text_of get_text (some start) none = none
text_of get_text (some start) (some t) = some (get_text start t.stop)

pub record Statement : Type 0 where
  pub statement : Text
  pub extra_info : SplitStatementExtraInfo
  pub is_eof : Bool

unfoldable pub next : (ℕ → ℕ → Text) → StatementIterator → Option (Statement × StatementIterator)
unfolding scan
next get_text it = do
  (s, b) ← scan (fuel_of it.tokenizer) (fresh it.current_token) it.tokenizer
  statement ← text_of get_text s.start s.previous
  t ← get b 0
  some (
    record {
      statement = statement;
      extra_info = info_of s;
      is_eof = is_eof t.kind || s.inside_comment;
    },
    record { tokenizer = b; current_token = s.current },
  )

-- The loop of `SplitStatement`: an empty statement is not kept.
unfoldable pub split_loop :
    (ℕ → ℕ → Text) → ℕ → StatementIterator → Option (List Text × SplitStatementExtraInfo)
split_loop get_text zero it = none
split_loop get_text (suc f) it = do
  (st, it') ← next get_text it
  let later = split_loop get_text f it'
  let keep = λ (sts : List Text). if is_empty st.statement then sts else st.statement ∷ sts
  elim st.is_eof [
    | true ↦ some (keep [], st.extra_info)
    | false ↦ do (sts, info) ← later; some (keep sts, info)
  ]

-- `createStringTokenizer` has a buffer of three tokens.
abbrev pub look_ahead : ℕ
look_ahead = 3

unfoldable pub create_statement_iterator : List Token → Token → StatementIterator
unfolding create_buffered_tokenizer
create_statement_iterator ts e = record {
  tokenizer = create_buffered_tokenizer ts e look_ahead;
  current_token = none;
}

-- `SplitStatement` on a text whose tokens are `ts` and then `e`.
unfoldable pub split_statement :
    (ℕ → ℕ → Text) → List Token → Token → Option (List Text × SplitStatementExtraInfo)
unfolding create_statement_iterator split_loop next
split_statement get_text ts e =
    let it = create_statement_iterator ts e in split_loop get_text (fuel_of it.tokenizer) it
