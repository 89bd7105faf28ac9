-- ===== src/IdPool.antt =====
-- The pool of request ids of libsql/internal/ws/websockets.go. The map `used` is the list of its
-- keys: only `true` is ever stored. The order in which Go walks a map is free, so `get` takes the
-- place of the key that the walk gives first. The mutex makes each call one step. Ids are uint32.
pub mod Unique
pub mod Runs
mod Tests
use libsql_client_go.Base.{
  ℕ, zero, suc, ◌+◌, ◌-◌, ◌%◌, ◌^◌, Bool, true, false, ◌||◌, Option, none, some, List, [], ◌∷◌,
  ◌==◌, ltb, if◌then◌else◌, length, get_or,
}

pub record IdPool : Type 0 where
  pub used : List ℕ
  pub max_used : ℕ

abbrev pub u32_mod : ℕ
u32_mod = 2 ^ 32

abbrev pub new_id_pool : IdPool
new_id_pool = record { used = []; max_used = 0 }

unfoldable pub contains : List ℕ → ℕ → Bool
contains [] k = false
contains (j ∷ ks) k = j == k || contains ks k

-- delete(pool.used, key)
unfoldable pub delete : List ℕ → ℕ → List ℕ
delete [] k = []
delete (j ∷ ks) k = let rest = delete ks k in if j == k then rest else j ∷ rest

unfoldable pub get_used : ℕ → IdPool → List ℕ → ℕ × IdPool
get_used walk pool [] =
    let next = (pool.max_used + 1) % u32_mod in (next, record pool { max_used = next })
get_used walk pool (k ∷ ks) =
    let key = get_or (k ∷ ks) (walk % length (k ∷ ks)) k in
    (key, record pool { used = delete pool.used key })

-- The id, and the pool after the call.
unfoldable pub get : ℕ → IdPool → ℕ × IdPool
unfolding get_used delete
get walk pool = get_used walk pool pool.used

-- The two panics of `Put`.
pub data Panic : Type 0 where
  invalid_value already_recycled : Panic

pub data PutResult : Type 0 where
  done : IdPool → PutResult
  panic : Panic → PutResult

unfoldable pub put : ℕ → IdPool → PutResult
unfolding contains
put id pool =
    if ltb id 1 || ltb pool.max_used id
    then panic invalid_value
    else if contains pool.used id
    then panic already_recycled
    else if id == pool.max_used
    then done (record pool { max_used = id - 1 })
    else done (record pool { used = id ∷ pool.used })
