-- ===== src/Conn/MessageTests.antt =====
-- Messages with arguments, and a prepared statement with one parameter.
use libsql_client_go.Base.{
  ◌≡◌, refl, true, false, none, some, List, [], ◌∷◌, arith, ℕ, suc, ◌-◌, ◌==◌, if◌then◌else◌,
  length, take, drop,
}
use libsql_client_go.Base.Texts.{Text, codes}
use libsql_client_go.Base.Results.{ok}
use libsql_client_go.Base.Decimal.{pos, format_int}
use libsql_client_go.Tokens.{Token, TokenKind, bind_parameter, other, scol, eof, visible}
use libsql_client_go.Tokenizer.{get, consume}
use libsql_client_go.Splitter.{split_statement, next, create_statement_iterator, turn}
use libsql_client_go.Values.{GoValue, NamedValue, int64, bool}
use libsql_client_go.Params.{
  Params, parse_statement_and_args, convert_args, is_explain, generate_statement_parameters,
}
use libsql_client_go.Params.Extract.{parse_statement, extract_parameters}
use libsql_client_go.Hrana.Value.{Value, plain, str, to_value}
use libsql_client_go.Hrana.Batch.{add_args, BatchStep}
use libsql_client_go.Hrana.Request.{StreamRequest, stmt_of, if_ok, add_rollback}
use libsql_client_go.Conn.World.{Env}
use libsql_client_go.Conn.Execute.{parse, message_of}
use libsql_client_go.Conn.Driver.{PreparedStmt, prepare_context, convert_to_named}
use libsql_client_go.Conn.Messages.{Carries, all_sent, parsed_message-Carries}
use libsql_client_go.Conn.Prepared.{sent_with, prepared_message}
use libsql_client_go.Conn.Tests.{toy_env}
use libsql_client_go.Hrana.Json.{null}

-- A lexer of one token for each byte, to which a question mark is a bind parameter.
abbrev toy_kind : ℕ → TokenKind
toy_kind c = if c == 63 then bind_parameter else if c == 59 then scol else other 0

abbrev toy_lex : ℕ → Text → List Token
toy_lex i [] = []
toy_lex i (c ∷ s) =
    record { kind = toy_kind c; channel = 0; start = i; stop = i; text = c ∷ [] }
    ∷ toy_lex (suc i) s

abbrev toy_end : Text → Token
toy_end q = record {
  kind = eof;
  channel = 0;
  start = length q;
  stop = length q - 1;
  text = codes "<EOF>";
}

abbrev byte_env : Env
byte_env = record (toy_env null) {
  tokens = toy_lex 0;
  end_token = toy_end;
  get_text = λ q i k. take (suc k - i) (drop i q);
}

abbrev five_and_yes : List (NamedValue Text)
five_and_yes =
    record { name = []; ordinal = 2; value = bool true }
    ∷ record { name = []; ordinal = 1; value = int64 (pos 5) }
    ∷ []

abbrev two_texts : List Text
two_texts = codes "a?" ∷ codes "b?" ∷ []

abbrev positional_only : GoValue Text → Params Text
positional_only v = record { positional = some (v ∷ []); named = none }

abbrev two_params : List (Params Text)
two_params = positional_only (int64 (pos 5)) ∷ positional_only (bool true) ∷ []

abbrev five : Value
five = plain (codes "integer") (str (codes "5"))

abbrev yes : Value
yes = plain (codes "integer") (str (codes "1"))

abbrev the_steps : List BatchStep
the_steps =
    record { stmt = record (stmt_of (codes "a?") true) { args = five ∷ [] }; condition = none }
    ∷ record {
      stmt = record (stmt_of (codes "b?") true) { args = yes ∷ [] };
      condition = some (if_ok (pos 0));
    }
    ∷ []

abbrev two_asked : StreamRequest
two_asked = record {
  kind = codes "batch";
  stmt = none;
  batch = some (add_rollback true 2 (record { steps = the_steps; replication_index = none }));
  sql = none;
  sql_id = none;
}

two_parsed : parse byte_env (codes "a?;b?") five_and_yes ≡ ok (two_texts, two_params)
unfolding parse split_statement get turn consume next create_statement_iterator
    parse_statement_and_args convert_args extract_parameters is_explain visible
    generate_statement_parameters
two_parsed = refl

two_built : message_of byte_env false two_texts two_params true ≡ ok two_asked
unfolding message_of add_args to_value format_int
two_built = refl

parsed_message-Carries_example :
    Carries byte_env (all_sent byte_env false two_texts two_params) two_asked
parsed_message-Carries_example =
    parsed_message-Carries byte_env (codes "a?;b?") five_and_yes false true two_texts two_params
      two_asked (tt, (omega arith, tt)) two_parsed two_built

-- SELECT ?
abbrev with_parameter : List Token
with_parameter =
    record { kind = other 0; channel = 0; start = 0; stop = 5; text = codes "SELECT" }
    ∷ record { kind = bind_parameter; channel = 0; start = 7; stop = 7; text = codes "?" }
    ∷ []

abbrev parameter_env : Env
parameter_env = record (toy_env null) { tokens = λ sql. with_parameter }

abbrev selects : PreparedStmt parameter_env
selects = record { num_input = some 1; sql = codes "SELECT ?" }

one_parameter : prepare_context parameter_env (codes "SELECT ?") ≡ ok selects
unfolding prepare_context get turn consume next create_statement_iterator parse_statement
    extract_parameters
one_parameter = refl

prepared_message_example :
    (t : Text) × (ps : List (Params Text)) × (r : StreamRequest) × (parse parameter_env
        (codes "SELECT ?")
        (convert_to_named parameter_env (int64 (pos 7) ∷ []))
      ≡ ok (t ∷ [], ps))
    × (message_of parameter_env false (t ∷ []) ps true ≡ ok r)
    × Carries parameter_env (sent_with parameter_env t (int64 (pos 7) ∷ [])) r
prepared_message_example =
    prepared_message parameter_env (codes "SELECT ?") selects (int64 (pos 7) ∷ []) false true
      one_parameter refl (omega arith, tt)
