-- ===== src/Tokenizer.antt =====
-- sqliteparserutils/buffered_tokenizer.go: a ring buffer of look-ahead tokens over a token source.
-- The source is the list of tokens that the lexer produces for a text and, for ever after them,
-- its end token. A cell of the ring is `none` until it is loaded, as `make` leaves it.
pub mod Window
pub mod Fill
use libsql_client_go.Base.{
  ℕ, zero, suc, ◌+◌, ◌%◌, Bool, true, false, Option, none, some, List, [], ◌∷◌, ltb, if◌then◌else◌,
  length, get_elem?, set, replicate,
}
use libsql_client_go.Tokens.{Token, is_default, is_eof}

pub record Buffer : Type 0 where
  pub upcoming : List Token
  pub at_end : Token
  pub tokens : List (Option Token)
  pub index : ℕ

-- `source.NextToken()` behind the `continue` of the loop: the next token on the default channel.
pub next_visible : List Token → Token → Token × List Token
next_visible [] e = (e, [])
next_visible (t ∷ ts) e = elim (is_default t) [ true ↦ (t, ts) | false ↦ next_visible ts e ]

-- One round of the loop in `load`: the token goes to cell `(index + i) % len(tokens)`.
pub load_one : ℕ → Buffer → Buffer
load_one i b =
    let (t, rest) = next_visible b.upcoming b.at_end in
    record b { upcoming = rest; tokens = set b.tokens ((b.index + i) % length b.tokens) (some t) }

-- The rounds that are left, and `i`.
pub load_rounds : ℕ → ℕ → Buffer → Buffer
load_rounds zero i b = b
load_rounds (suc m) i b = load_rounds m (i + 1) (load_one i b)

pub load : ℕ → Buffer → Buffer
load n b =
    let loaded = load_rounds n 0 b in
    record loaded { index = (loaded.index + n) % length loaded.tokens }

unfoldable pub create_buffered_tokenizer : List Token → Token → ℕ → Buffer
unfolding load load_rounds load_one next_visible
create_buffered_tokenizer ts e size =
    load size (record { upcoming = ts; at_end = e; tokens = replicate size none; index = 0 })

unfoldable pub consume : Buffer → Buffer
unfolding load load_rounds load_one next_visible
consume b = load 1 b

-- A cell that holds no token, or that is not there.
abbrev cell : Option (Option Token) → Option Token
cell none = none
cell (some t) = t

-- `none` is a panic: the read is out of the buffer, or of a cell that was never loaded.
unfoldable pub get : Buffer → ℕ → Option Token
get b k =
    if ltb k (length b.tokens)
    then cell (get_elem? b.tokens ((b.index + k) % length b.tokens))
    else none

unfoldable pub at_eof : Buffer → Option Bool
unfolding get
at_eof b = elim (get b 0) [ none ↦ none | some t ↦ some (is_eof t.kind) ]
