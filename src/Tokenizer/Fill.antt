-- ===== src/Tokenizer/Fill.antt =====
-- The first load of the ring: `create_buffered_tokenizer` shows the first tokens of the source.
use native.Mathlib.Nat.{mod-eq_of_lt, mod_self, zero-add}
use native.Mathlib.Decide.{dec_lt}
use libsql_client_go.Base.{
  ℕ, zero, suc, ◌+◌, ◌%◌, ◌<◌, ◌≡◌, refl, ap, ◌∙◌, none, some, List, arith, length, get_elem?,
  get_or, drop, length-set, length-replicate, get_elem?-set_self, get_elem?-set_ne, get_or-drop,
  drop-suc,
}
use libsql_client_go.Tokens.{Token, visible}
use libsql_client_go.Tokenizer.{
  Buffer, next_visible, load_one, load_rounds, create_buffered_tokenizer,
}
use libsql_client_go.Tokenizer.Window.{Shows, next_visible_lem}

-- The first `i` cells are loaded with the first `i` tokens of `r`.
record Filled (b : Buffer) (r : List Token) (n i : ℕ) : Type 0 where
  size : length b.tokens ≡ n
  start : b.index ≡ 0
  loaded : (k : ℕ) → k < i → get_elem? b.tokens k ≡ some (some (get_or r k b.at_end))
  behind : visible b.upcoming ≡ drop i r

load_one-Filled :
    (b : Buffer) (r : List Token) (n i : ℕ)
    → i < n
    → Filled b r n i
    → Filled (load_one i b) r n (suc i)
unfolding load_one
load_one-Filled b r n i h f = record {
  size = length-set b.tokens _ _ ∙ f.size;
  start = f.start;
  loaded = λ k below. rw place (elim (dec_lt k i) [
    | yes old ↦ get_elem?-set_ne b.tokens i k _ (omega arith) ∙ f.loaded k old
    | no new ↦
        let same : k ≡ i = omega arith in
        rw same
          (get_elem?-set_self b.tokens i _ (omega (arith, f.size)) ∙ ap (λ t. some (some t)) newest)
  ]);
  behind = (next_visible_lem b.upcoming b.at_end).1 ∙ ap (drop 1) f.behind ∙ drop-suc i r;
}
  where
    place : (b.index + i) % length b.tokens ≡ i
    place = rw (f.start, f.size, zero-add) (mod-eq_of_lt h)

    newest : (next_visible b.upcoming b.at_end).0 ≡ get_or r i b.at_end
    newest =
        (next_visible_lem b.upcoming b.at_end).0
        ∙ ap (λ (ts : List Token). get_or ts 0 b.at_end) f.behind
        ∙ get_or-drop i r b.at_end

load_rounds-Filled :
    (m i n : ℕ) (b : Buffer) (r : List Token)
    → i + m ≡ n
    → Filled b r n i
    → Filled (load_rounds m i b) r n n
unfolding load_rounds
load_rounds-Filled zero i n b r e f = let same : i ≡ n = omega arith in rw same at f
load_rounds-Filled (suc m) i n b r e f =
    load_rounds-Filled m (i + 1) n (load_one i b) r (omega arith)
      (let next : i + 1 ≡ suc i = omega arith in rw next (load_one-Filled b r n i (omega arith) f))

Filled-Shows :
    (b : Buffer) (r : List Token) (n : ℕ)
    → 0 < n
    → Filled b r n n
    → Shows (record b { index = (b.index + n) % length b.tokens }) r
Filled-Shows b r n p f = record {
  inside = rw origin (omega (arith, f.size));
  window = λ k h. rw (origin, zero-add, mod-eq_of_lt h) (f.loaded k (omega (arith, f.size)));
  behind = rw f.size f.behind;
}
  where
    origin : (b.index + n) % length b.tokens ≡ 0
    origin = rw (f.start, f.size, zero-add) (mod_self n)

-- A new tokenizer shows the source's default tokens from the first.
pub create-Shows :
    (ts : List Token) (e : Token) (n : ℕ)
    → 0 < n
    → Shows (create_buffered_tokenizer ts e n) (visible ts)
unfolding create_buffered_tokenizer
create-Shows ts e n p = Filled-Shows _ (visible ts) n p (
    load_rounds-Filled n 0 n _ (visible ts) (omega arith) (record {
      size = length-replicate n none;
      start = refl;
      loaded = λ k h. elim h [ ];
      behind = refl;
    }))

load_rounds_keeps :
    (m i : ℕ) (b : Buffer)
    → (length (load_rounds m i b).tokens ≡ length b.tokens)
      × ((load_rounds m i b).at_end ≡ b.at_end)
unfolding load_rounds load_one
load_rounds_keeps zero i b = (refl, refl)
load_rounds_keeps (suc m) i b =
    let (l, e) = load_rounds_keeps m (i + 1) (load_one i b) in (l ∙ length-set b.tokens _ _, e)

pub length-create :
    (ts : List Token) (e : Token) (n : ℕ) → length (create_buffered_tokenizer ts e n).tokens ≡ n
unfolding create_buffered_tokenizer
length-create ts e n = (load_rounds_keeps n 0 _).0 ∙ length-replicate n none

pub at_end-create :
    (ts : List Token) (e : Token) (n : ℕ) → (create_buffered_tokenizer ts e n).at_end ≡ e
unfolding create_buffered_tokenizer
at_end-create ts e n = (load_rounds_keeps n 0 _).1
