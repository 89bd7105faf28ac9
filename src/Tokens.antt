-- ===== src/Tokens.antt =====
-- The tokens that the generated lexer (package sqliteparser) hands to the client's own code: only
-- the kinds that this code compares are named. The lexer itself is not modelled.
use libsql_client_go.Base.{ℕ, Bool, true, false, List, [], ◌∷◌, ◌==◌, if◌then◌else◌}
use libsql_client_go.Base.Texts.{Text}

-- SQLiteLexerSCOL and so on; `other` stands for the constants that no test names. `invalid` is
-- antlr.TokenInvalidType.
pub data TokenKind : Type 0 where
  eof invalid scol begin_ case_ end_ create_ trigger_ temp_ temporary_ div star : TokenKind
  bind_parameter explain_ : TokenKind
  other : ℕ → TokenKind

pub record Token : Type 0 where
  pub kind : TokenKind
  pub channel : ℕ
  pub start : ℕ
  pub stop : ℕ
  pub text : Text

abbrev pub is_eof : TokenKind → Bool
is_eof eof = true
is_eof _ = false

abbrev pub is_scol : TokenKind → Bool
is_scol scol = true
is_scol _ = false

-- antlr.TokenDefaultChannel is 0.
abbrev pub is_default : Token → Bool
is_default t = t.channel == 0

-- The tokens on the default channel.
unfoldable pub visible : List Token → List Token
visible [] = []
visible (t ∷ ts) = let rest = visible ts in if is_default t then t ∷ rest else rest
