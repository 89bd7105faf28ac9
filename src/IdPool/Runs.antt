-- ===== src/IdPool/Runs.antt =====
-- Runs of the id pool: callers take ids and put back the ids that they hold.
use Prim.Native.Nat.{max}
use mathlib.Core.Path.{subst}
use libsql_client_go.Base.{
  ℕ, ◌+◌, ◌≤◌, ◌<◌, ◌≡◌, refl, ap, inl, inr, Bool, true, false, List, [], ◌∷◌, arith, ltb, length,
  Bool-cases,
}
use libsql_client_go.IdPool.{
  IdPool, new_id_pool, delete, get, get_used, put, PutResult, done, panic, u32_mod,
}
use libsql_client_go.IdPool.Unique.{count, Tracks, Tracks-new, get-Tracks, put-Tracks, put_unused}

-- The ids in use, the pool, and the most ids that were ever in use at once.
pub record World : Type 0 where
  pub held : List ℕ
  pub pool : IdPool
  pub peak : ℕ

abbrev pub started : World
started = record { held = []; pool = new_id_pool; peak = 0 }

abbrev pub acquired : ℕ → World → World
acquired walk w =
    let (id, q) = get walk w.pool in
    record { held = id ∷ w.held; pool = q; peak = max w.peak (length w.held + 1) }

-- A caller takes an id, or puts back one that it holds, as `exec` does by `defer`. Fewer than 2 ^ 32
-- ids are in use at once.
pub data Step : World → World → Type 0 where
  acquire : (w : World) (walk : ℕ) → length w.held + 1 < u32_mod → Step w (acquired walk w)
  release :
      (w : World) (id : ℕ) (q : IdPool)
      → 0 < count w.held id
      → put id w.pool ≡ done q
      → Step w (record w { held = delete w.held id; pool = q })

pub data Reach : World → Type 0 where
  start : Reach started
  next : {w v : World} → Reach w → Step w v → Reach v

record Good (w : World) : Type 0 where
  tracks : Tracks w.held w.pool
  capped : w.pool.max_used ≤ w.peak

get_used-capped :
    (walk : ℕ) (held : List ℕ) (p : IdPool) (ks : List ℕ)
    → Tracks held p
    → p.used ≡ ks
    → length held + 1 < u32_mod
    → (get_used walk p ks).1.max_used ≤ max p.max_used (length held + 1)
unfolding get_used
get_used-capped walk held p [] t e h = omega (arith, t.total, ap length e)
get_used-capped walk held p (k ∷ ks) t e h = omega arith

get-capped :
    (walk : ℕ) (held : List ℕ) (p : IdPool)
    → Tracks held p
    → length held + 1 < u32_mod
    → (get walk p).1.max_used ≤ max p.max_used (length held + 1)
unfolding get
get-capped walk held p t h = get_used-capped walk held p p.used t refl h

put-capped : (id : ℕ) (p q : IdPool) → put id p ≡ done q → q.max_used ≤ p.max_used
unfolding put
put-capped id p q h = ground arith

put-same :
    (id : ℕ) (held : List ℕ) (p q : IdPool)
    → Tracks held p
    → 0 < count held id
    → put id p ≡ done q
    → Tracks (delete held id) q
put-same id held p q t h e =
    let (r, e', t') = put-Tracks held p t id h in
    let same : r ≡ q = cc in subst (Tracks (delete held id)) same t'

Step-Good : {w v : World} → Step w v → Good w → Good v
Step-Good (acquire w walk h) g = record {
  tracks = (get-Tracks w.held w.pool g.tracks walk h).0;
  capped = omega (arith, get-capped walk w.held w.pool g.tracks h, g.capped);
}
Step-Good (release w id q h e) g = record {
  tracks = put-same id w.held w.pool q g.tracks h e;
  capped = omega (arith, put-capped id w.pool q e, g.capped);
}

Reach-Good : {w : World} → Reach w → Good w
Reach-Good start = record { tracks = Tracks-new; capped = omega arith }
Reach-Good (next r st) = Step-Good st (Reach-Good r)

-- After any run of `Get` and `Put`, whatever keys the map gives first, an id in use is in use once,
-- and lies between 1 and the peak number of ids in use at once.
pub Reach-distinct :
    (w : World) (k : ℕ)
    → Reach w
    → 0 < count w.held k
    → (count w.held k ≡ 1) × (1 ≤ k) × (k ≤ w.peak)
Reach-distinct w k r h = let g = Reach-Good r in ground (arith, g.tracks.each k, g.capped)

abbrev pub succeeds : PutResult → Bool
succeeds (done q) = true
succeeds (panic x) = false

-- After any run, `Put` panics on exactly the ids that are not in use.
pub Reach-put : (w : World) (id : ℕ) → Reach w → succeeds (put id w.pool) ≡ ltb 0 (count w.held id)
Reach-put w id r = elim (Bool-cases (ltb 0 (count w.held id))) [
  | inl used ↦
      let (q, e, _) = put-Tracks w.held w.pool (Reach-Good r).tracks id (ground arith) in
      rw (e, used)
  | inr unused ↦
      let (x, e) = put_unused w.held w.pool (Reach-Good r).tracks id (ground arith) in
      rw (e, unused)
]
