-- ===== src/Splitter/Whole.antt =====
-- `SplitStatement` over the ring buffer against the single pass of the reference.
use libsql_client_go.Base.{
  ℕ, zero, suc, ◌≤◌, ◌<◌, ◌≡◌, refl, ap, ◌⊎◌, inl, inr, ◌||◌, Bool, true, false, Option, none, some,
  List, [], ◌∷◌, arith, length, get_or, length-drop, if◌then◌else◌,
}
use libsql_client_go.Base.Texts.{Text, is_empty}
use libsql_client_go.Tokens.{Token, is_eof, visible}
use libsql_client_go.Tokenizer.{Buffer, create_buffered_tokenizer}
use libsql_client_go.Splitter.{
  Scan, Turn, stop, finish, go, on_turn, turn, fresh, text_of, info_of, ◌>>=◌, fuel_of, next,
  split_loop, split_statement, create_statement_iterator, StatementIterator, Statement,
  SplitStatementExtraInfo, look_ahead,
}
use libsql_client_go.Splitter.Reference.{
  scan_list, is_nil, cut, statement_of, statements, last_info,
}
use libsql_client_go.Splitter.Refine.{NoEof, Ready, create-Ready, get-Ready, scan-refines}
use libsql_client_go.Splitter.Pieces.{Piece, scan_list-Piece}
use libsql_client_go.Splitter.Rounds.{
  Sound, TurnSound, turn-Sound, fresh-Sound, Leaves, scan_list-Leaves,
}

-- The calls that follow a call of `Next` that gave `s` and left `left`.
abbrev pub calls_after : Token → Scan × List Token → List Scan
calls_after e (s, left) =
    s ∷ elim (is_nil left || s.inside_comment) [ true ↦ [] | false ↦ cut e (fresh s.current) left ]

on_turn-cut :
    (e : Token) (q : Turn) (t : Token) (r : List Token)
    → TurnSound q
    → ((s : Scan) → Sound s → cut e s r ≡ calls_after e (scan_list e s r))
    → on_turn q
        (λ s'. s' ∷ [])
        (λ s'. elim (is_nil r) [ true ↦ s' ∷ [] | false ↦ s' ∷ cut e (fresh s'.current) r ])
        (λ s'. cut e s' r)
      ≡ calls_after e (on_turn q (λ s'. (s', t ∷ r)) (λ s'. (s', r)) (λ s'. scan_list e s' r))
on_turn-cut e (stop s) t r h ih = rw h.1
on_turn-cut e (finish s) t [] h ih = refl
on_turn-cut e (finish s) t (u ∷ r) h ih = simp h.1
on_turn-cut e (go s) t r h ih = ih s h

-- The single pass is a sequence of calls.
pub cut-calls :
    (e : Token) (r : List Token) (s : Scan) → Sound s → cut e s r ≡ calls_after e (scan_list e s r)
unfolding cut scan_list
cut-calls e [] s h = refl
cut-calls e (t ∷ r) s h =
    on_turn-cut e (turn s t (get_or r 0 e) (get_or r 1 e)) t r (turn-Sound s _ _ _ h)
      λ s' h'. cut-calls e r s' h'

length-visible : (ts : List Token) → length (visible ts) ≤ length ts
unfolding visible
length-visible [] = omega arith
length-visible (t ∷ ts) = ground (arith, length-visible ts)

-- The fuel of a call is more than the tokens that are left.
pub fuel_enough : {e : Token} (b : Buffer) (r : List Token) → Ready e b r → length r < fuel_of b
fuel_enough b r d = omega (
  arith,
  length-visible b.upcoming,
  ap length d.shows.behind,
  length-drop (length b.tokens) r,
  d.size,
)

text_total :
    (get_text : ℕ → ℕ → Text) (o : Option ℕ) (p : Option Token)
    → (o ≡ none) ⊎ ((t : Token) × (p ≡ some t))
    → text_of get_text o p ≡ some (elim (text_of get_text o p) [ none ↦ [] | some t ↦ t ])
text_total get_text none p h = refl
text_total get_text (some n) (some t) h = refl
text_total get_text (some n) none (inl e) = cc
text_total get_text (some n) none (inr (t, e)) = cc

at_end-is_nil :
    (e : Token) (r : List Token)
    → is_eof e.kind ≡ true
    → NoEof r
    → is_eof (get_or r 0 e).kind ≡ is_nil r
at_end-is_nil e [] h n = h
at_end-is_nil e (t ∷ r) h n = n.0

module _ (get_text : ℕ → ℕ → Text) (e : Token) (end : is_eof e.kind ≡ true) where
  abbrev called : Scan × List Token → Statement
  called (s, left) = record {
    statement = statement_of get_text s;
    extra_info = info_of s;
    is_eof = is_nil left || s.inside_comment;
  }

  abbrev Calls : Option (Statement × StatementIterator) → Scan × List Token → Type 0
  Calls got (s, left) =
      (b : Buffer) × (got
        ≡ some (called (s, left), record { tokenizer = b; current_token = s.current }))
      × Ready e b left

  pub next-refines :
      (r : List Token) (it : StatementIterator)
      → Ready e it.tokenizer r
      → NoEof r
      → Calls (next get_text it) (scan_list e (fresh it.current_token) r)
  unfolding next
  next-refines r it d n =
      let (b, eq, d') =
        scan-refines e end r (fresh it.current_token) (fuel_of it.tokenizer) it.tokenizer d n
          (fuel_enough it.tokenizer r d) in
      let l = scan_list-Leaves e r (fresh it.current_token) (fresh-Sound it.current_token) n in
      (
        b,
        rw (
          eq,
          text_total get_text _ _ l.anchored,
          get-Ready 0 d' (omega arith),
          at_end-is_nil e _ end l.no_eof,
        ),
        d',
      )

  -- What `SplitStatement` makes of its calls of `Next`.
  abbrev gathered : List Scan → List Text × SplitStatementExtraInfo
  gathered ss = (statements get_text ss, last_info (fresh none) ss)

  abbrev keep : Text → List Text → List Text
  keep text sts = if is_empty text then sts else text ∷ sts

  -- One more call in front, where another follows.
  gathered-cons :
      (s : Scan) (o : Option Token) (r : List Token)
      → (
        keep (statement_of get_text s) (gathered (cut e (fresh o) r)).0,
        (gathered (cut e (fresh o) r)).1,
      )
        ≡ gathered (s ∷ cut e (fresh o) r)
  unfolding statements last_info
  gathered-cons s o r = rw (cut-calls e r (fresh o) (fresh-Sound o))

  loop_end :
      (b : Bool) (s : Scan) (left : List Token)
      (later : Option (List Text × SplitStatementExtraInfo))
      → (b ≡ false → later ≡ some (gathered (cut e (fresh s.current) left)))
      → elim b [
        | true ↦ some (keep (statement_of get_text s) [], info_of s)
        | false ↦ later >>= λ x. some (keep (statement_of get_text s) x.0, x.1)
      ]
        ≡ some (gathered (s ∷ elim b [ true ↦ [] | false ↦ cut e (fresh s.current) left ]))
  unfolding statements last_info
  loop_end true s left later h = refl
  loop_end false s left later h = rw (h refl) (ap some (gathered-cons s s.current left))

  pub shorter :
      (s : Scan) (left r : List Token) (f : ℕ)
      → Leaves s left r
      → length r < suc f
      → (is_nil left || s.inside_comment) ≡ false
      → length left < f
  shorter s left r f l h b = elim l.progress [
    | inl e ↦ cc
    | inr (inl e) ↦ ground (arith, e)
    | inr (inr e) ↦ omega arith
  ]

  split_loop-refines :
      (f : ℕ) (r : List Token) (it : StatementIterator)
      → Ready e it.tokenizer r
      → NoEof r
      → length r < f
      → split_loop get_text f it ≡ some (gathered (cut e (fresh it.current_token) r))
  unfolding split_loop
  split_loop-refines zero r it d n h = elim h [ ]
  split_loop-refines (suc f) r it d n h =
      let (b, eq, d') = next-refines r it d n in
      let l = scan_list-Leaves e r (fresh it.current_token) (fresh-Sound it.current_token) n in
      rw (eq, cut-calls e r (fresh it.current_token) (fresh-Sound it.current_token))
        (loop_end _ _ _ _ λ more. split_loop-refines f _ _ d' l.no_eof (shorter _ _ r f l h more))

  -- `SplitStatement` never panics and always ends: over the ring buffer of three tokens it gives
  -- the texts of the cuts of the reference, a single pass over the default-channel tokens, and what
  -- the last cut says of the text; the end token is the lexer's, and stands at the end only.
  pub split_statement-eq-cut :
      (ts : List Token)
      → NoEof (visible ts)
      → split_statement get_text ts e
        ≡ some (
          statements get_text (cut e (fresh none) (visible ts)),
          last_info (fresh none) (cut e (fresh none) (visible ts)),
        )
  unfolding split_statement create_statement_iterator
  split_statement-eq-cut ts n =
      let d = create-Ready ts e in
      split_loop-refines (fuel_of (create_buffered_tokenizer ts e look_ahead)) (visible ts) _ d n
        (fuel_enough _ (visible ts) d)

  -- A call of `Next` never panics, and loses no token: it skips separators, takes a statement that
  -- runs from the start of its first token to the stop of its last, takes at most one separator
  -- behind it, and leaves the rest in order. It reports the end exactly when no token is left or
  -- an unfinished comment was met.
  pub next-Piece :
      (r : List Token) (it : StatementIterator)
      → Ready e it.tokenizer r
      → NoEof r
      → let (s, left) = scan_list e (fresh it.current_token) r in
        (b : Buffer) × (next get_text it
          ≡ some (
            record {
              statement = statement_of get_text s;
              extra_info = info_of s;
              is_eof = is_nil left || s.inside_comment;
            },
            record { tokenizer = b; current_token = s.current },
          ))
        × Piece it.current_token s left r
  next-Piece r it d n =
      let (b, eq, d') = next-refines r it d n in
      (b, eq, scan_list-Piece e r (fresh it.current_token) refl)
