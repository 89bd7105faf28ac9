-- ===== src/Splitter/Rounds.antt =====
-- Facts about one round of the loop and about one call of `Next` in the reference.
use libsql_client_go.Base.{
  ℕ, suc, ◌<◌, ◌≡◌, refl, ◌∙◌, ◌⊎◌, inl, inr, Bool, true, false, Option, none, some, List, [], ◌∷◌,
  arith, length, get_or, if_both,
}
use libsql_client_go.Tokens.{TokenKind, Token, is_scol}
use libsql_client_go.Splitter.{
  Scan, Turn, stop, finish, go, on_turn, turn, turn_at, trigger_turn, fresh,
  at_incomplete_multiline_comment_start,
}
use libsql_client_go.Splitter.Reference.{scan_list}
use libsql_client_go.Splitter.Refine.{NoEof}

-- A scan between rounds: a start has a previous token, and no open comment was met.
pub record Sound (s : Scan) : Type 0 where
  pub anchored : (s.start ≡ none) ⊎ ((t : Token) × (s.previous ≡ some t))
  pub outside : s.inside_comment ≡ false

-- A scan at the end of a call.
abbrev pub Ends : Bool → Scan → Type 0
Ends comment s =
    ((s.start ≡ none) ⊎ ((t : Token) × (s.previous ≡ some t))) × (s.inside_comment ≡ comment)

abbrev pub TurnSound : Turn → Type 0
TurnSound (stop s) = Ends true s
TurnSound (finish s) = Ends false s
TurnSound (go s) = Sound s

trigger_turn-outside :
    (k : TokenKind) (s : Scan) → (trigger_turn k s).inside_comment ≡ s.inside_comment
unfolding trigger_turn
trigger_turn-outside k s = ground arith

go-Sound :
    (s s' : Scan) (t : Token)
    → s'.previous ≡ some t
    → s'.inside_comment ≡ s.inside_comment
    → Sound s
    → Sound s'
go-Sound s s' t p c h = record { anchored = inr (t, p); outside = c ∙ h.outside }

turn_at-Sound :
    (o : Option ℕ) (s : Scan) (t0 t1 t2 : Token) → Sound s → TurnSound (turn_at o s t0 t1 t2)
unfolding turn_at
turn_at-Sound none s t0 t1 t2 h =
    if_both TurnSound (is_scol t0.kind) h (go-Sound s _ t0 refl refl h)
turn_at-Sound (some p) s t0 t1 t2 h =
    if_both TurnSound s.inside_trigger (go-Sound s _ t0 refl (trigger_turn-outside t0.kind s) h)
      (if_both TurnSound (is_scol t0.kind) (h.anchored, h.outside) (go-Sound s _ t0 refl refl h))

pub turn-Sound : (s : Scan) (t0 t1 t2 : Token) → Sound s → TurnSound (turn s t0 t1 t2)
unfolding turn
turn-Sound s t0 t1 t2 h =
    if_both TurnSound (at_incomplete_multiline_comment_start t0.kind t1.kind) (h.anchored, refl)
      (turn_at-Sound s.start (record s { current = some t0 }) t0 t1 t2
        (record { anchored = h.anchored; outside = h.outside }))

pub fresh-Sound : (o : Option Token) → Sound (fresh o)
fresh-Sound o = record { anchored = inl refl; outside = refl }

-- What a call of `Next` leaves: a scan with a text, and fewer tokens unless it was the last.
pub record Leaves (s : Scan) (left r : List Token) : Type 0 where
  pub anchored : (s.start ≡ none) ⊎ ((t : Token) × (s.previous ≡ some t))
  pub no_eof : NoEof left
  pub progress : (left ≡ []) ⊎ (s.inside_comment ≡ true) ⊎ (length left < length r)

abbrev pub LeavesPair : Scan × List Token → List Token → Type 0
LeavesPair (s, left) r = Leaves s left r

module _ (e : Token) where
  on_turn-Leaves :
      (q : Turn) (t : Token) (r : List Token)
      → TurnSound q
      → NoEof (t ∷ r)
      → ((s : Scan) → Sound s → LeavesPair (scan_list e s r) r)
      → LeavesPair (on_turn q (λ s'. (s', t ∷ r)) (λ s'. (s', r)) (λ s'. scan_list e s' r)) (t ∷ r)
  on_turn-Leaves (stop s) t r h n ih = record {
    anchored = h.0;
    no_eof = n;
    progress = inr (inl h.1);
  }
  on_turn-Leaves (finish s) t r h n ih = record {
    anchored = h.0;
    no_eof = n.1;
    progress = inr (inr (omega arith));
  }
  on_turn-Leaves (go s) t r h n ih = record {
    anchored = (ih s h).anchored;
    no_eof = (ih s h).no_eof;
    progress = later (scan_list e s r).0 (scan_list e s r).1 (ih s h).progress;
  }
    where
      later :
          (s' : Scan) (left : List Token)
          → (left ≡ []) ⊎ (s'.inside_comment ≡ true) ⊎ (length left < length r)
          → (left ≡ []) ⊎ (s'.inside_comment ≡ true) ⊎ (length left < suc (length r))
      later s' left (inl x) = inl x
      later s' left (inr (inl x)) = inr (inl x)
      later s' left (inr (inr x)) = inr (inr (omega arith))

  pub scan_list-Leaves :
      (r : List Token) (s : Scan) → Sound s → NoEof r → LeavesPair (scan_list e s r) r
  unfolding scan_list
  scan_list-Leaves [] s h n = record { anchored = h.anchored; no_eof = n; progress = inl refl }
  scan_list-Leaves (t ∷ r) s h n =
      on_turn-Leaves (turn s t (get_or r 0 e) (get_or r 1 e)) t r (turn-Sound s _ _ _ h) n
        λ s' h'. scan_list-Leaves r s' h' n.1
