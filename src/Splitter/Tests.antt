-- ===== src/Splitter/Tests.antt =====
-- The splitter on concrete tokens.
use mathlib.Core.Option
use libsql_client_go.Base.{ℕ, ◌≡◌, ◌||◌, refl, true, false, List, [], ◌∷◌, none, some}
use libsql_client_go.Base.Texts.{Text}
use libsql_client_go.Tokens.{
  TokenKind, eof, scol, create_, trigger_, begin_, end_, case_, other, Token, visible,
}
use libsql_client_go.Tokenizer.{Buffer, get, consume}
use libsql_client_go.Splitter.{
  split_statement, turn, trigger_turn, next, fresh, info_of, create_statement_iterator, Statement,
  StatementIterator, at_create_trigger_start, at_incomplete_multiline_comment_start,
}
use libsql_client_go.Splitter.Reference.{
  scan_list, is_nil, statement_of, cut, statements, last_info,
}
use libsql_client_go.Splitter.Refine.{NoEof, Ready, create-Ready}
use libsql_client_go.Splitter.Pieces.{Piece}
use libsql_client_go.Splitter.Blocks.{
  Block, closes, pops, opens, plain, Head, begins, word, Complete,
}
use libsql_client_go.Splitter.Triggers.{next-trigger}
use libsql_client_go.Splitter.Whole.{split_statement-eq-cut, next-Piece}

abbrev at : TokenKind → ℕ → Token
at k n = record { kind = k; channel = 0; start = n; stop = n; text = [] }

abbrev blank_at : ℕ → Token
blank_at n = record { kind = other 9; channel = 1; start = n; stop = n; text = [] }

-- A text's bytes from `a` to `b`: the two positions stand for them.
abbrev span : ℕ → ℕ → Text
span a b = a ∷ b ∷ []

-- x y ; ; z
abbrev two_statements : List Token
two_statements =
    at (other 1) 0
    ∷ blank_at 1
    ∷ at (other 1) 2
    ∷ at scol 3
    ∷ blank_at 4
    ∷ at scol 5
    ∷ at (other 1) 6
    ∷ []

-- create trigger x begin a ; case b end ; end ; c
abbrev trigger_text : List Token
trigger_text =
    at create_ 0
    ∷ at trigger_ 1
    ∷ at (other 1) 2
    ∷ at begin_ 3
    ∷ at (other 1) 4
    ∷ at scol 5
    ∷ at case_ 6
    ∷ at (other 1) 7
    ∷ at end_ 8
    ∷ at scol 9
    ∷ at end_ 10
    ∷ at scol 11
    ∷ at (other 1) 12
    ∷ []

abbrev the_end : Token
the_end = at eof 99

split_two :
    Option.map (λ (p : List Text × _). p.0) (split_statement span two_statements the_end)
    ≡ some (span 0 2 ∷ span 6 6 ∷ [])
unfolding split_statement get turn consume
split_two = refl

split_trigger :
    Option.map (λ (p : List Text × _). p.0) (split_statement span trigger_text the_end)
    ≡ some (span 0 10 ∷ span 12 12 ∷ [])
unfolding split_statement get turn consume trigger_turn
split_trigger = refl

no_eof : NoEof (visible two_statements)
unfolding visible
no_eof = (refl, (refl, (refl, (refl, (refl, tt)))))

split_statement-eq-cut_example :
    split_statement span two_statements the_end
    ≡ some (
      statements span (cut the_end (fresh none) (visible two_statements)),
      last_info (fresh none) (cut the_end (fresh none) (visible two_statements)),
    )
split_statement-eq-cut_example = split_statement-eq-cut span the_end refl two_statements no_eof

next-Piece_example :
    let it = create_statement_iterator two_statements the_end in
    let (s, left) = scan_list the_end (fresh none) (visible two_statements) in
    (b : Buffer) × (next span it
      ≡ some (
        record {
          statement = statement_of span s;
          extra_info = info_of s;
          is_eof = is_nil left || s.inside_comment;
        },
        record { tokenizer = b; current_token = s.current },
      ))
    × Piece none s left (visible two_statements)
unfolding create_statement_iterator
next-Piece_example =
    next-Piece span the_end refl (visible two_statements)
      (create_statement_iterator two_statements the_end) (create-Ready two_statements the_end)
      no_eof

-- The trigger's text, and a lexer's end behind it.
abbrev trigger_body : List Token
trigger_body =
    at (other 1) 4
    ∷ at scol 5
    ∷ at case_ 6
    ∷ at (other 1) 7
    ∷ at end_ 8
    ∷ at scol 9
    ∷ at end_ 10
    ∷ at scol 11
    ∷ at (other 1) 12
    ∷ []

trigger_body-Block : Block 1 trigger_body (at end_ 10) (at scol 11 ∷ at (other 1) 12 ∷ [])
trigger_body-Block =
    plain (λ e. cc) (λ e. cc)
      (plain (λ e. cc) (λ e. cc)
        (opens refl
          (plain (λ e. cc) (λ e. cc) (pops refl (plain (λ e. cc) (λ e. cc) (closes refl))))))

trigger_text-Head : Head (at trigger_ 1 ∷ at (other 1) 2 ∷ at begin_ 3 ∷ trigger_body) trigger_body
trigger_text-Head = word (λ e. cc) (word (λ e. cc) (begins refl))

abbrev at_trigger : StatementIterator
at_trigger = create_statement_iterator trigger_text the_end

trigger_text-NoEof : NoEof trigger_text
trigger_text-NoEof = (
  refl,
  (
    refl,
    (refl, (refl, (refl, (refl, (refl, (refl, (refl, (refl, (refl, (refl, (refl, tt))))))))))),
  ),
)

next-trigger_example :
    (st : Statement) × (it' : StatementIterator) × (next span at_trigger ≡ some (st, it'))
    × (st.statement ≡ span 0 10)
    × (st.is_eof ≡ false)
    × Ready the_end it'.tokenizer (at (other 1) 12 ∷ [])
next-trigger_example =
    next-trigger the_end span at_trigger (at create_ 0) (at end_ 10) (at scol 11)
      (at trigger_ 1 ∷ at (other 1) 2 ∷ at begin_ 3 ∷ trigger_body) trigger_body
      (at (other 1) 12 ∷ []) refl ready trigger_text-NoEof starts trigger_text-Head
      trigger_body-Block refl whole
  where
    ready : Ready the_end at_trigger.tokenizer trigger_text
    ready = unfold create_statement_iterator visible in create-Ready trigger_text the_end

    starts : at_create_trigger_start create_ trigger_ (other 1) ≡ true
    starts = unfold at_create_trigger_start in refl

    whole : Complete the_end trigger_text
    whole =
        unfold Complete at_incomplete_multiline_comment_start in
        (
          refl,
          (
            refl,
            (
              refl,
              (refl, (refl, (refl, (refl, (refl, (refl, (refl, (refl, (refl, (refl, tt)))))))))),
            ),
          ),
        )
