-- ===== src/Conn/ScriptTests.antt =====
-- Scripts on concrete tokens.
use libsql_client_go.Base.{ℕ, ◌≡◌, ◌≢◌, refl, false, some, List, [], ◌∷◌}
use libsql_client_go.Base.Texts.{Text, codes, to_lower, starts_with}
use libsql_client_go.Base.Results.{err}
use libsql_client_go.Tokens.{Token, TokenKind, eof, scol, other, visible}
use libsql_client_go.Splitter.{
  fuel_of, next, create_statement_iterator, split_statement, SplitStatementExtraInfo, turn,
}
use libsql_client_go.Splitter.Refine.{NoEof}
use libsql_client_go.Tokenizer.{get, consume}
use libsql_client_go.Hrana.Json.{null}
use libsql_client_go.Conn.World.{Env, stuck}
use libsql_client_go.Conn.Chunks.{chunk_size, is_transaction_statement}
use libsql_client_go.Conn.Execute.{execute_in_chunks}
use libsql_client_go.Conn.Scripts.{
  read_chunks, script_chunker, concat, without_transactions, AllUpTo, read_chunks-split_statement,
}
use libsql_client_go.Conn.Ends.{execute_in_chunks-Ends}
use libsql_client_go.Conn.Drops.{Outcome, execute_in_chunks-Outcome}
use libsql_client_go.Conn.Tests.{toy_env, open_conn, world_of}

abbrev token_at : TokenKind → ℕ → Token
token_at k n = record { kind = k; channel = 0; start = n; stop = n; text = [] }

-- x ; y
abbrev pub two_statements : List Token
two_statements = token_at (other 1) 0 ∷ token_at scol 1 ∷ token_at (other 1) 2 ∷ []

abbrev pub the_end : Token
the_end = token_at eof 9

abbrev pub span : ℕ → ℕ → Text
span a b = a ∷ b ∷ []

no_eof : NoEof (visible two_statements)
unfolding visible
no_eof = (refl, (refl, (refl, tt)))

read_chunks-split_statement_example :
    let c = script_chunker two_statements the_end in
    (css : List (List Text)) × (stmts : List Text) × (info : SplitStatementExtraInfo) × (read_chunks
        span
        (fuel_of c.iterator.tokenizer)
        c
      ≡ some css)
    × (split_statement span two_statements the_end ≡ some (stmts, info))
    × (concat css ≡ without_transactions stmts)
    × AllUpTo chunk_size css
read_chunks-split_statement_example =
    read_chunks-split_statement span two_statements the_end refl no_eof

abbrev script_env : Env
script_env = record (toy_env null) {
  tokens = λ sql. two_statements;
  end_token = λ sql. the_end;
  get_text = λ sql. span;
}

execute_in_chunks-Ends_example :
    (execute_in_chunks script_env (codes "x;y") false (world_of open_conn)).0 ≢ err stuck
execute_in_chunks-Ends_example =
    execute_in_chunks-Ends script_env (codes "x;y") false (world_of open_conn) refl no_eof

two_read :
    read_chunks span 2 (script_chunker two_statements the_end)
    ≡ some ((span 0 0 ∷ span 2 2 ∷ []) ∷ [])
unfolding read_chunks get turn consume is_transaction_statement next create_statement_iterator
    to_lower starts_with
two_read = refl

execute_in_chunks-Outcome_example :
    Outcome
      ((span 0 0 ∷ span 2 2 ∷ []) ∷ [])
      (world_of open_conn)
      (execute_in_chunks script_env (codes "x;y") false (world_of open_conn))
execute_in_chunks-Outcome_example =
    execute_in_chunks-Outcome script_env (codes "x;y") false (world_of open_conn) 1
      ((span 0 0 ∷ span 2 2 ∷ []) ∷ []) refl no_eof two_read
