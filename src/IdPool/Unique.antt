-- ===== src/IdPool/Unique.antt =====
-- Over any run of calls the ids in use are distinct, and never larger than the peak of their number.
use libsql_client_go.Base.{
  ℕ, zero, suc, ◌+◌, ◌-◌, ◌%◌, ◌≤◌, ◌<◌, ◌≡◌, refl, ap, inl, inr, ◌&&◌, ◌||◌, List, [], ◌∷◌, arith,
  ◌==◌, ltb, leb, if◌then◌else◌, length, get_or, Bool-cases,
}
use native.Mathlib.Nat.{mod-lt}
use native.Mathlib.Decide.{ℕ_discrete}
use libsql_client_go.IdPool.{
  IdPool, new_id_pool, contains, delete, get, get_used, put, done, panic, Panic, invalid_value,
  already_recycled, u32_mod,
}

-- How often an id is in a list.
unfoldable pub count : List ℕ → ℕ → ℕ
count [] k = 0
count (j ∷ ks) k = (if j == k then 1 else 0) + count ks k

-- The ids in use, beside the pool. An id from 1 to `max_used` is in use or recycled, and only once;
-- no other id is either.
pub record Tracks (held : List ℕ) (p : IdPool) : Type 0 where
  pub each :
      (k : ℕ) → count held k + count p.used k ≡ (if leb 1 k && leb k p.max_used then 1 else 0)
  pub total : length held + length p.used ≡ p.max_used

contains-count : (ks : List ℕ) (k : ℕ) → contains ks k ≡ ltb 0 (count ks k)
unfolding contains count
contains-count [] k = refl
contains-count (j ∷ ks) k = ground (arith, contains-count ks k)

count-delete : (ks : List ℕ) (k j : ℕ) → count (delete ks k) j ≡ (if k == j then 0 else count ks j)
unfolding delete count
count-delete [] k j = ground arith
count-delete (i ∷ ks) k j = ground (arith, count-delete ks k j)

length-delete : (ks : List ℕ) (k : ℕ) → length (delete ks k) + count ks k ≡ length ks
unfolding delete count
length-delete [] k = omega arith
length-delete (i ∷ ks) k = ground (arith, length-delete ks k)

get_or-count : (ks : List ℕ) (i d : ℕ) → i < length ks → 0 < count ks (get_or ks i d)
unfolding count
get_or-count [] i d h = elim h [ ]
get_or-count (k ∷ ks) zero d h = ground arith
get_or-count (k ∷ ks) (suc i) d h = ground (arith, get_or-count ks i d (omega arith))

-- A new id: none of those in use, and in the range.
pub record Fresh (held : List ℕ) (id : ℕ) (p : IdPool) : Type 0 where
  pub unused : count held id ≡ 0
  pub positive : 1 ≤ id
  pub bounded : id ≤ p.max_used

pub Tracks-new : Tracks [] new_id_pool
unfolding count
Tracks-new = record { each = λ k. ground arith; total = refl }

module _ (held : List ℕ) (p : IdPool) (t : Tracks held p) where
  Extended : ℕ → Type 0
  Extended id =
      Tracks (id ∷ held) (record p { max_used = id }) × Fresh held id (record p { max_used = id })

  extend-Tracks : p.used ≡ [] → Extended (p.max_used + 1)
  unfolding Extended count
  extend-Tracks e = (
    record { each = λ j. ground (arith, t.each j); total = omega (arith, t.total) },
    record {
      unused = ground (arith, t.each (p.max_used + 1));
      positive = omega arith;
      bounded = omega arith;
    },
  )

  Reused : ℕ → Type 0
  Reused id =
      let q : IdPool = record p { used = delete p.used id } in
      Tracks (id ∷ held) q × Fresh held id q

  reuse-Tracks : (id : ℕ) → 0 < count p.used id → Reused id
  unfolding Reused count
  reuse-Tracks id h = (
    record {
      each = λ j. ground (arith, t.each j, count-delete p.used id j, h);
      total = ground (arith, t.total, length-delete p.used id, t.each id);
    },
    record {
      unused = ground (arith, t.each id);
      positive = ground (arith, t.each id);
      bounded = ground (arith, t.each id);
    },
  )

  get_used-Tracks :
      (walk : ℕ) (ks : List ℕ)
      → p.used ≡ ks
      → length held + 1 < u32_mod
      → let (id, q) = get_used walk p ks in Tracks (id ∷ held) q × Fresh held id q
  unfolding get_used Extended Reused
  get_used-Tracks walk [] e h =
      let wraps : (p.max_used + 1) % u32_mod ≡ p.max_used + 1 =
        omega (arith, t.total, ap length e) in
      rw wraps (extend-Tracks e)
  get_used-Tracks walk (k ∷ ks) e h =
      reuse-Tracks _ (rw e (get_or-count (k ∷ ks) _ k (mod-lt walk (omega arith))))

  -- `Get` gives an id that nobody uses, from 1 to `max_used`, and records it.
  pub get-Tracks :
      (walk : ℕ)
      → length held + 1 < u32_mod
      → let (id, q) = get walk p in Tracks (id ∷ held) q × Fresh held id q
  unfolding get
  get-Tracks walk h = get_used-Tracks walk p.used refl h

  in_use :
      (id : ℕ)
      → 0 < count held id
      → (1 ≤ id) × (id ≤ p.max_used) × (count p.used id ≡ 0) × (count held id ≡ 1)
  in_use id h = ground (arith, t.each id)

  put_last-Tracks :
      (id : ℕ)
      → 0 < count held id
      → id ≡ p.max_used
      → Tracks (delete held id) (record p { max_used = id - 1 })
  put_last-Tracks id h e = record {
    each = λ j. ground (arith, t.each j, in_use id h, count-delete held id j);
    total = omega (arith, t.total, in_use id h, length-delete held id);
  }

  put_inner-Tracks :
      (id : ℕ) → 0 < count held id → Tracks (delete held id) (record p { used = id ∷ p.used })
  unfolding count
  put_inner-Tracks id h = record {
    each = λ j. ground (arith, t.each j, in_use id h, count-delete held id j);
    total = omega (arith, t.total, in_use id h, length-delete held id);
  }

  -- `Put` of an id in use does not panic, and takes it out of use.
  pub put-Tracks :
      (id : ℕ) → 0 < count held id → (q : IdPool) × (put id p ≡ done q) × Tracks (delete held id) q
  unfolding put
  put-Tracks id h = elim (ℕ_discrete id p.max_used) [
    | yes last ↦ (
      record p { max_used = id - 1 },
      ground (arith, in_use id h, contains-count p.used id),
      put_last-Tracks id h last,
    )
    | no inner ↦ (
      record p { used = id ∷ p.used },
      ground (arith, in_use id h, contains-count p.used id),
      put_inner-Tracks id h,
    )
  ]

  -- `Put` of any other id panics.
  pub put_unused : (id : ℕ) → count held id ≡ 0 → (x : Panic) × (put id p ≡ panic x)
  unfolding put
  put_unused id h = elim (Bool-cases (ltb id 1 || ltb p.max_used id)) [
    | inl outside ↦ (invalid_value, rw outside)
    | inr inside ↦ (already_recycled, ground (arith, inside, t.each id, contains-count p.used id))
  ]
