-- ===== src/Keepalive.antt =====
-- libsql/keepalive.go: the connector that touches an idle database. Times are nanoseconds; the
-- atomics make each access one step.
pub mod Loop
pub mod Closing
mod Tests
use libsql_client_go.Base.{
  ℕ, ◌≡◌, ◌+◌, ◌-◌, ◌*◌, ◌<◌, ◌≤◌, Bool, true, false, not, ◌&&◌, ltb, ◌==◌, if◌then◌else◌, if_split,
  arith,
}

-- `keepaliveConnector`. `stopped` is that `stop` is closed.
pub record KeepaliveConnector : Type 0 where
  pub interval : ℕ
  pub last_activity : ℕ
  pub started : Bool
  pub stopped : Bool

abbrev pub new_keepalive_connector : ℕ → KeepaliveConnector
new_keepalive_connector interval = record {
  interval = interval;
  last_activity = 0;
  started = false;
  stopped = false;
}

-- `Connect` at a time, behind which the inner connector is asked; the loop starts with the first.
unfoldable pub connect : ℕ → KeepaliveConnector → KeepaliveConnector
connect now c = record c { last_activity = now; started = true }

unfoldable pub idle_for : ℕ → KeepaliveConnector → ℕ
idle_for now c = if c.last_activity == 0 then 0 else now - c.last_activity

-- A tick of `loop` that reads the time `now`, and whether it touches the database. `touch` opens
-- its own connection by `Connect`, at the time `stamp`.
unfoldable pub tick : ℕ → ℕ → KeepaliveConnector → KeepaliveConnector × Bool
unfolding connect idle_for
tick now stamp c = if ltb (idle_for now c) c.interval then (c, false) else (connect stamp c, true)

-- A round of `loop`: it ends when the connector is closed. Where a tick is ready as well, `select` may
-- take either; the child Loop has both.
unfoldable pub loop_round : ℕ → ℕ → KeepaliveConnector → KeepaliveConnector × Bool
unfolding tick
loop_round now stamp c = if c.stopped then (c, false) else tick now stamp c

-- `Close`
unfoldable pub close : KeepaliveConnector → KeepaliveConnector
close c = record c { stopped = true }

-- While the loop runs, and up to the next tick, which comes after `interval` and a delay, the
-- database is idle for less than two intervals and the delay.
pub idle_for-loop_round :
    (now stamp t delay : ℕ) (c : KeepaliveConnector)
    → c.stopped ≡ false
    → 0 < c.interval
    → 0 < c.last_activity
    → c.last_activity ≤ now
    → now ≤ stamp
    → t ≤ now + c.interval + delay
    → idle_for t (loop_round now stamp c).0 < 2 * c.interval + delay
unfolding loop_round tick idle_for connect
idle_for-loop_round now stamp t delay c running i0 a0 seen later next = ground arith
