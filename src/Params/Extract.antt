-- ===== src/Params/Extract.antt =====
-- `extractParameters` and `ParseStatement` of shared/statement.go, on the tokens of a statement.
pub mod Refusals
use libsql_client_go.Base.{
  ℕ, ◌+◌, Bool, true, false, ◌&&◌, ◌||◌, Option, none, some, List, [], ◌∷◌, ◌++◌, leb, ◌==◌,
  if◌then◌else◌, length,
}
use libsql_client_go.Base.Texts.{Text, text_eq}
use libsql_client_go.Base.Results.{Result, ok, err, ◌>>=◌}
use libsql_client_go.Tokens.{Token, TokenKind, bind_parameter}
use libsql_client_go.Params.Errors.{ParamError, bad_prefix}

pub record ParamsInfo : Type 0 where
  pub named_parameters : List Text
  pub positional_parameters_count : ℕ

-- A set, as the keys of a map to `true`.
unfoldable pub member : Text → List Text → Bool
member k [] = false
member k (j ∷ ks) = text_eq j k || member k ks

unfoldable pub insert_key : Text → List Text → List Text
unfolding member
insert_key k ks = if member k ks then ks else ks ++ (k ∷ [])

all_digits : Text → Bool
all_digits [] = true
all_digits (c ∷ s) = leb 48 c && leb c 57 && all_digits s

-- FindStringSubmatch of ^\?(\d+)?$: the group, empty where it takes no part in the match.
unfoldable pub positional_index : Text → Option Text
unfolding all_digits
positional_index [] = none
positional_index (c ∷ s) = if c == b'?' && all_digits s then some s else none

-- `paramName[0]` of an empty text would panic; the lexer gives no empty bind parameter.
unfoldable pub remove_param_prefix : Text → Result ParamError Text
remove_param_prefix [] = err bad_prefix
remove_param_prefix (c ∷ s) = if c == b':' || c == b'@' || c == b'$' then ok s else err bad_prefix

-- The two sets and the count of the loop.
pub record Found : Type 0 where
  pub names : List Text
  pub indexes : List Text
  pub plain : ℕ

abbrev pub is_bind : TokenKind → Bool
is_bind bind_parameter = true
is_bind _ = false

-- A parameter by the match of the regular expression.
unfoldable pub add_parameter : Text → Option Text → Found → Result ParamError Found
unfolding insert_key remove_param_prefix
add_parameter parameter none f = do
  name ← remove_param_prefix parameter
  ok (record f { names = insert_key name f.names })
add_parameter parameter (some []) f = ok (record f { plain = f.plain + 1 })
add_parameter parameter (some (c ∷ s)) f = ok (record f { indexes = insert_key (c ∷ s) f.indexes })

unfoldable pub find_parameters : List Token → Found → Result ParamError Found
unfolding add_parameter positional_index
find_parameters [] f = ok f
find_parameters (t ∷ ts) f =
    let rest = λ (g : Found). find_parameters ts g in
    if is_bind t.kind then add_parameter t.text (positional_index t.text) f >>= rest else rest f

-- Positional parameters with an index count once each.
unfoldable pub extract_parameters : List Token → Result ParamError ParamsInfo
unfolding find_parameters
extract_parameters ts = do
  f ← find_parameters ts (record { names = []; indexes = []; plain = 0 })
  ok (record {
    named_parameters = f.names;
    positional_parameters_count = f.plain + length f.indexes;
  })

-- `ParseStatement` behind the split: the parameters of each statement. `lex` gives a text's tokens.
unfoldable pub parse_statement :
    (Text → List Token) → List Text → Result ParamError (List ParamsInfo)
parse_statement lex [] = ok []
parse_statement lex (stmt ∷ stmts) = do
  info ← extract_parameters (lex stmt)
  infos ← parse_statement lex stmts
  ok (info ∷ infos)
