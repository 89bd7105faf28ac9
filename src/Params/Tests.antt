-- ===== src/Params/Tests.antt =====
-- Parameters on concrete statements.
use libsql_client_go.Base.{ℕ, ◌≡◌, refl, none, some, List, [], ◌∷◌, if◌then◌else◌}
use libsql_client_go.Base.Texts.{Text, codes, text_eq}
use libsql_client_go.Base.Results.{ok}
use libsql_client_go.Base.Decimal.{pos}
use libsql_client_go.Tokens.{Token, bind_parameter, visible}
use libsql_client_go.Values.{GoValue, NamedValue, int64}
use libsql_client_go.Params.{
  Params, sort_args, convert_args, is_explain, parse_statement_and_args,
  generate_statement_parameters,
}
use libsql_client_go.Params.Extract.{ParamsInfo, extract_parameters, member}
use libsql_client_go.Params.Share.{Shared, values_of, parse_statement_and_args-Shared}
use libsql_client_go.Params.Named.{lookup, named_value, generate_named}

abbrev Moment : Type 0
Moment = ℕ

abbrev bind : Text → Token
bind s = record { kind = bind_parameter; channel = 0; start = 0; stop = 0; text = s }

-- A toy lexer: every byte of a statement is a bind parameter of that byte.
abbrev toy_lex : Text → List Token
toy_lex [] = []
toy_lex (c ∷ s) = bind (c ∷ []) ∷ toy_lex s

abbrev arg : ℕ → ℕ → NamedValue Moment
arg n v = record { name = []; ordinal = n; value = int64 (pos v) }

abbrev three_args : List (NamedValue Moment)
three_args = arg 2 20 ∷ arg 1 10 ∷ arg 3 30 ∷ []

abbrev positional : List (GoValue Moment) → Params Moment
positional vs = record { positional = some vs; named = none }

share_by_ordinal :
    parse_statement_and_args toy_lex (codes "?" ∷ codes "??" ∷ []) three_args
    ≡ ok (positional (int64 (pos 10) ∷ []) ∷ positional (int64 (pos 20) ∷ int64 (pos 30) ∷ []) ∷ [])
unfolding parse_statement_and_args convert_args extract_parameters is_explain visible
    generate_statement_parameters
share_by_ordinal = refl

parse_statement_and_args-Shared_example :
    Shared
      (values_of (sort_args three_args))
      0
      (parse_statement_and_args toy_lex (codes "?" ∷ codes "??" ∷ []) three_args)
parse_statement_and_args-Shared_example =
    parse_statement_and_args-Shared toy_lex (codes "?" ∷ codes "??" ∷ []) three_args
      (refl, (refl, (refl, tt)))

abbrev named_tokens : List Token
named_tokens = bind (codes ":a") ∷ bind (codes "@b") ∷ []

abbrev named_info : ParamsInfo
named_info = record {
  named_parameters = codes "a" ∷ codes "b" ∷ [];
  positional_parameters_count = 0;
}

abbrev entries : List (Text × GoValue Moment)
entries = (codes "b", int64 (pos 2)) ∷ (codes "c", int64 (pos 3)) ∷ []

named_tokens-info : extract_parameters named_tokens ≡ ok named_info
unfolding extract_parameters text_eq
named_tokens-info = refl

generate_named_example :
    named_value (codes "b") (
      generate_statement_parameters named_tokens
        (record { positional = none; named = some entries })
        0)
    ≡ (if member (codes "b") named_info.named_parameters then lookup (codes "b") entries else none)
generate_named_example =
    generate_named named_tokens entries 0 named_info (codes "b") named_tokens-info
