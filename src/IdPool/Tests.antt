-- ===== src/IdPool/Tests.antt =====
-- The id pool on concrete calls.
use libsql_client_go.Base.{◌<◌, ◌≤◌, ◌≡◌, refl, [], ◌∷◌, arith, ltb}
use libsql_client_go.IdPool.{delete, get, put}
use libsql_client_go.IdPool.Unique.{count}
use libsql_client_go.IdPool.Runs.{
  World, started, acquired, acquire, release, Reach, start, next, succeeds, Reach-distinct,
  Reach-put,
}

-- Two callers hold 1 and 2.
abbrev two_held : World
two_held = acquired 0 (acquired 0 started)

two_held-Reach : Reach two_held
unfolding get
two_held-Reach = next (next start (acquire started 0 (omega arith))) (acquire _ 0 (omega arith))

-- The first puts 1 back, which is kept for reuse, since 2 is the largest id.
abbrev recycled : World
recycled = record two_held {
  held = delete two_held.held 1;
  pool = record two_held.pool { used = 1 ∷ [] };
}

recycled-Reach : Reach recycled
unfolding get put delete count
recycled-Reach =
    next two_held-Reach
      (release two_held 1 (record { used = 1 ∷ []; max_used = 2 }) (omega arith) refl)

next_id : (get 5 recycled.pool).0 ≡ 1
unfolding get
next_id = refl

in_use : 0 < count recycled.held 2
unfolding get delete count
in_use = omega arith

Reach-distinct_example : (count recycled.held 2 ≡ 1) × (1 ≤ 2) × (2 ≤ recycled.peak)
Reach-distinct_example = Reach-distinct recycled 2 recycled-Reach in_use

Reach-put_example : succeeds (put 1 recycled.pool) ≡ ltb 0 (count recycled.held 1)
Reach-put_example = Reach-put recycled 1 recycled-Reach
