-- ===== src/Splitter/Refine.antt =====
-- The iterator over the ring buffer makes the cuts of the reference, and always ends.
use libsql_client_go.Base.{
  ℕ, zero, suc, ◌<◌, ◌≡◌, refl, ◌∙◌, true, false, Option, some, List, [], ◌∷◌, arith, length,
  get_or, drop,
}
use libsql_client_go.Tokens.{Token, is_eof, visible}
use libsql_client_go.Tokenizer.{Buffer, get, consume, create_buffered_tokenizer}
use libsql_client_go.Tokenizer.Window.{
  Shows, consume-Shows, get-Shows, length-consume, at_end-consume,
}
use libsql_client_go.Tokenizer.Fill.{create-Shows, length-create, at_end-create}
use libsql_client_go.Splitter.{Scan, Turn, stop, finish, go, on_turn, turn, scan, look_ahead}
use libsql_client_go.Splitter.Reference.{scan_list}

-- The lexer gives its end token only at the end.
abbrev pub NoEof : List Token → Type 0
NoEof [] = Unit {0}
NoEof (t ∷ r) = (is_eof t.kind ≡ false) × NoEof r

-- The buffer of an iterator, with the tokens that it has still to give.
pub record Ready (e : Token) (b : Buffer) (r : List Token) : Type 0 where
  pub shows : Shows b r
  pub size : length b.tokens ≡ look_ahead
  pub ends : b.at_end ≡ e

pub consume-Ready :
    {e : Token} {b : Buffer} {r : List Token} → Ready e b r → Ready e (consume b) (drop 1 r)
consume-Ready {b = b} d = record {
  shows = consume-Shows d.shows;
  size = length-consume b ∙ d.size;
  ends = at_end-consume b ∙ d.ends;
}

pub create-Ready :
    (ts : List Token) (e : Token) → Ready e (create_buffered_tokenizer ts e look_ahead) (visible ts)
create-Ready ts e = record {
  shows = create-Shows ts e look_ahead (omega arith);
  size = length-create ts e look_ahead;
  ends = at_end-create ts e look_ahead;
}

pub get-Ready :
    {e : Token} {b : Buffer} {r : List Token} (k : ℕ)
    → Ready e b r
    → k < look_ahead
    → get b k ≡ some (get_or r k e)
get-Ready {b = b} {r = r} k d h = rw (← d.ends) (get-Shows k d.shows (omega (arith, d.size)))

-- What `scan` returns is what the reference returns, in a buffer that shows what it leaves.
abbrev pub Scans : Token → Option (Scan × Buffer) → Scan × List Token → Type 0
Scans e got want = (b : Buffer) × (got ≡ some (want.0, b)) × Ready e b want.1

module _ (e : Token) where
  on_turn-Scans :
      (q : Turn) (t : Token) (r : List Token) (b : Buffer) (more : Scan → Option (Scan × Buffer))
      → Ready e b (t ∷ r)
      → ((s : Scan) → Scans e (more s) (scan_list e s r))
      → Scans e
          (on_turn q (λ s'. some (s', b)) (λ s'. some (s', consume b)) more)
          (on_turn q (λ s'. (s', t ∷ r)) (λ s'. (s', r)) (λ s'. scan_list e s' r))
  on_turn-Scans (stop s) t r b more d h = (b, refl, d)
  on_turn-Scans (finish s) t r b more d h = (consume b, refl, consume-Ready d)
  on_turn-Scans (go s) t r b more d h = h s

  -- One call of `Next`, with fuel for the tokens that are left.
  pub scan-refines :
      is_eof e.kind ≡ true
      → (r : List Token) (s : Scan) (f : ℕ) (b : Buffer) → Ready e b r
      → NoEof r
      → length r < f
      → Scans e (scan f s b) (scan_list e s r)
  unfolding scan_list scan
  scan-refines end r s zero b d n h = elim h [ ]
  scan-refines end [] s (suc f) b d n h = (
    b,
    rw (get-Ready 0 d (omega arith), get-Ready 1 d (omega arith), get-Ready 2 d (omega arith), end),
    d,
  )
  scan-refines end (t ∷ r) s (suc f) b d n h =
      rw
        (get-Ready 0 d (omega arith), get-Ready 1 d (omega arith), get-Ready 2 d (omega arith), n.0)
        (on_turn-Scans (turn s t (get_or r 0 e) (get_or r 1 e)) t r b _ d
          λ s'. scan-refines end r s' f (consume b) (consume-Ready d) n.1 (omega arith))
