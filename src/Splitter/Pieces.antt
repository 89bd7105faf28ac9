-- ===== src/Splitter/Pieces.antt =====
-- What one call of `Next` takes from the tokens, in terms of the reference.
use libsql_client_go.Base.{
  ℕ, ◌≡◌, refl, ap, ◌∙◌, ◌⊎◌, inl, inr, true, Option, none, some, List, [], ◌∷◌, ◌++◌, arith,
  get_or, if_both, if_split,
}
use mathlib.Core.Path.{subst}
use libsql_client_go.Tokens.{Token, TokenKind, is_scol}
use libsql_client_go.Splitter.{
  Scan, Turn, stop, finish, go, on_turn, turn, turn_at, trigger_turn,
  at_incomplete_multiline_comment_start,
}
use libsql_client_go.Splitter.Reference.{scan_list}

abbrev pub AllScol : List Token → Type 0
AllScol [] = Unit {0}
AllScol (t ∷ r) = (is_scol t.kind ≡ true) × AllScol r

abbrev pub first_start : List Token → Option ℕ
first_start [] = none
first_start (t ∷ r) = some t.start

abbrev pub last_of : Option Token → List Token → Option Token
last_of o [] = o
last_of o (t ∷ r) = last_of (some t) r

-- The tokens of a call: separators that it skips, the statement, and the separator that ends it.
pub record Piece (o : Option Token) (s : Scan) (left r : List Token) : Type 0 where
  pub skipped : List Token
  pub body : List Token
  pub closing : List Token
  pub splits : r ≡ skipped ++ (body ++ (closing ++ left))
  pub skips : AllScol skipped
  pub starts : s.start ≡ first_start body
  pub ends : s.previous ≡ last_of o body
  pub closes : (closing ≡ []) ⊎ ((t : Token) × (closing ≡ t ∷ []) × (is_scol t.kind ≡ true))

-- The part of a call behind the first token of its statement.
record Tail (p : Option ℕ) (o : Option Token) (s : Scan) (left r : List Token) : Type 0 where
  body : List Token
  closing : List Token
  splits : r ≡ body ++ (closing ++ left)
  starts : s.start ≡ p
  ends : s.previous ≡ last_of o body
  closes : (closing ≡ []) ⊎ ((t : Token) × (closing ≡ t ∷ []) × (is_scol t.kind ≡ true))

-- A round inside a statement.
TailTurn : ℕ → Scan → Token → Turn → Type 0
TailTurn n s t (stop s') = (s'.start ≡ some n) × (s'.previous ≡ s.previous)
TailTurn n s t (finish s') =
    (s'.start ≡ some n) × (s'.previous ≡ s.previous) × (is_scol t.kind ≡ true)
TailTurn n s t (go s') = (s'.start ≡ some n) × (s'.previous ≡ some t)

trigger_turn-start : (k : TokenKind) (s : Scan) → (trigger_turn k s).start ≡ s.start
unfolding trigger_turn
trigger_turn-start k s = ground arith

turn-TailTurn :
    (n : ℕ) (s : Scan) (t0 t1 t2 : Token) → s.start ≡ some n → TailTurn n s t0 (turn s t0 t1 t2)
unfolding turn TailTurn
turn-TailTurn n s t0 t1 t2 h =
    if_both (TailTurn n s t0) (at_incomplete_multiline_comment_start t0.kind t1.kind) (h, refl)
      (inner s.start h)
  where
    inner :
        (p : Option ℕ)
        → p ≡ some n
        → TailTurn n s t0 (turn_at p (record s { current = some t0 }) t0 t1 t2)
    inner none e = cc
    inner (some m) e =
        if_both (TailTurn n s t0) s.inside_trigger
          (trigger_turn-start t0.kind (record s { current = some t0 }) ∙ h, refl)
          (if_split (TailTurn n s t0) (is_scol t0.kind) (λ sep. (h, refl, sep)) (λ _. (h, refl)))

abbrev TailOf : ℕ → Option Token → Scan × List Token → List Token → Type 0
TailOf n o (s, left) r = Tail (some n) o s left r

module _ (e : Token) where
  on_turn-Tail :
      (n : ℕ) (s : Scan) (t : Token) (r : List Token) (q : Turn)
      → TailTurn n s t q
      → ((s' : Scan) → s'.start ≡ some n → TailOf n s'.previous (scan_list e s' r) r)
      → TailOf n s.previous
          (on_turn q (λ s'. (s', t ∷ r)) (λ s'. (s', r)) (λ s'. scan_list e s' r))
          (t ∷ r)
  unfolding TailTurn
  on_turn-Tail n s t r (stop s') h ih = record {
    body = [];
    closing = [];
    splits = refl;
    starts = h.0;
    ends = h.1;
    closes = inl refl;
  }
  on_turn-Tail n s t r (finish s') h ih = record {
    body = [];
    closing = t ∷ [];
    splits = refl;
    starts = h.0;
    ends = h.1;
    closes = inr (t, refl, h.2);
  }
  on_turn-Tail n s t r (go s') h ih =
      let d = ih s' h.0 in
      record {
        body = t ∷ d.body;
        closing = d.closing;
        splits = ap (◌∷◌ t) d.splits;
        starts = d.starts;
        ends = d.ends ∙ ap (λ (p : Option Token). last_of p d.body) h.1;
        closes = d.closes;
      }

  scan_list-Tail :
      (n : ℕ) (r : List Token) (s : Scan)
      → s.start ≡ some n
      → TailOf n s.previous (scan_list e s r) r
  unfolding scan_list
  scan_list-Tail n [] s h = record {
    body = [];
    closing = [];
    splits = refl;
    starts = h;
    ends = refl;
    closes = inl refl;
  }
  scan_list-Tail n (t ∷ r) s h =
      on_turn-Tail n s t r (turn s t (get_or r 0 e) (get_or r 1 e)) (turn-TailTurn n s t _ _ h)
        λ s' h'. scan_list-Tail n r s' h'

abbrev PieceOf : Option Token → Scan × List Token → List Token → Type 0
PieceOf o (s, left) r = Piece o s left r

-- A round before a statement.
HeadTurn : Option Token → Token → Turn → Type 0
HeadTurn o t (stop s) = (s.start ≡ none) × (s.previous ≡ o)
HeadTurn o t (finish s) = ⊥
HeadTurn o t (go s) =
    ((s.start ≡ none) × (s.previous ≡ o) × (is_scol t.kind ≡ true))
    ⊎ ((s.start ≡ some t.start) × (s.previous ≡ some t))

turn-HeadTurn :
    (s : Scan) (t0 t1 t2 : Token) → s.start ≡ none → HeadTurn s.previous t0 (turn s t0 t1 t2)
unfolding turn HeadTurn
turn-HeadTurn s t0 t1 t2 h =
    if_both (HeadTurn s.previous t0) (at_incomplete_multiline_comment_start t0.kind t1.kind)
      (h, refl) (inner s.start h)
  where
    inner :
        (p : Option ℕ)
        → p ≡ none
        → HeadTurn s.previous t0 (turn_at p (record s { current = some t0 }) t0 t1 t2)
    inner none e =
        if_split (HeadTurn s.previous t0) (is_scol t0.kind) (λ sep. inl (h, refl, sep))
          (λ _. inr (refl, refl))
    inner (some m) e = cc

module _ (e : Token) where
  skip-Piece :
      (o : Option Token) (s : Scan) (t : Token) (left r : List Token)
      → is_scol t.kind ≡ true
      → Piece o s left r
      → Piece o s left (t ∷ r)
  skip-Piece o s t left r h p = record {
    skipped = t ∷ p.skipped;
    body = p.body;
    closing = p.closing;
    splits = ap (◌∷◌ t) p.splits;
    skips = (h, p.skips);
    starts = p.starts;
    ends = p.ends;
    closes = p.closes;
  }

  start-Piece :
      (o : Option Token) (s : Scan) (t : Token) (left r : List Token)
      → Tail (some t.start) (some t) s left r
      → Piece o s left (t ∷ r)
  start-Piece o s t left r d = record {
    skipped = [];
    body = t ∷ d.body;
    closing = d.closing;
    splits = ap (◌∷◌ t) d.splits;
    skips = tt;
    starts = d.starts;
    ends = d.ends;
    closes = d.closes;
  }

  on_turn-Piece :
      (o : Option Token) (t : Token) (r : List Token) (q : Turn)
      → HeadTurn o t q
      → ((s : Scan) → s.start ≡ none → PieceOf s.previous (scan_list e s r) r)
      → PieceOf o (on_turn q (λ s'. (s', t ∷ r)) (λ s'. (s', r)) (λ s'. scan_list e s' r)) (t ∷ r)
  unfolding HeadTurn
  on_turn-Piece o t r (stop s) h ih = record {
    skipped = [];
    body = [];
    closing = [];
    splits = refl;
    skips = tt;
    starts = h.0;
    ends = h.1;
    closes = inl refl;
  }
  on_turn-Piece o t r (finish s) h ih = absurd h
  on_turn-Piece o t r (go s) (inl h) ih =
      skip-Piece o _ t _ r h.2 (subst (λ p. PieceOf p (scan_list e s r) r) h.1 (ih s h.0))
  on_turn-Piece o t r (go s) (inr h) ih =
      start-Piece o _ t _ r
        (subst (λ p. TailOf t.start p (scan_list e s r) r) h.1 (scan_list-Tail e t.start r s h.0))

  -- A call of `Next` loses no token: it skips separators, takes a statement whose text runs from
  -- its first token's start to its last token's stop, takes at most one separator behind it, and
  -- leaves the rest in order.
  pub scan_list-Piece :
      (r : List Token) (s : Scan) → s.start ≡ none → PieceOf s.previous (scan_list e s r) r
  unfolding scan_list
  scan_list-Piece [] s h = record {
    skipped = [];
    body = [];
    closing = [];
    splits = refl;
    skips = tt;
    starts = h;
    ends = refl;
    closes = inl refl;
  }
  scan_list-Piece (t ∷ r) s h =
      on_turn-Piece s.previous t r (turn s t (get_or r 0 e) (get_or r 1 e))
        (turn-HeadTurn s t _ _ h) λ s' h'. scan_list-Piece r s' h'
