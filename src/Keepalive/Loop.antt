-- ===== src/Keepalive/Loop.antt =====
-- The goroutines of libsql/keepalive.go: callers of `Connect`, one call of `Close`, and the loop that
-- the first `Connect` starts. A step is what one of them does at once; they come in any order. A second
-- call of `Close` waits for the first and then only closes the inner connector.
use libsql_client_go.Base.{ℕ, ◌+◌, ◌≡◌, Bool, true, false, ltb, if◌then◌else◌}
use libsql_client_go.Keepalive.{KeepaliveConnector, new_keepalive_connector, connect, idle_for}

-- Where the loop is: not there yet, at its `select`, in `touch`, or behind `close(c.done)`.
pub data LoopState : Type 0 where
  not_started selecting touching done : LoopState

-- Where `Close` is: not called, behind `close(c.stop)`, at `<-c.done`, or behind `stopOnce`, with
-- whether it has waited.
pub data CloseState : Type 0 where
  not_called stopping waiting : CloseState
  past : Bool → CloseState

-- `loops` counts the goroutines that were started.
pub record System : Type 0 where
  pub connector : KeepaliveConnector
  pub loop : LoopState
  pub closing : CloseState
  pub loops : ℕ

abbrev pub new_system : ℕ → System
new_system interval = record {
  connector = new_keepalive_connector interval;
  loop = not_started;
  closing = not_called;
  loops = 0;
}

-- `Connect` at a time: the first, by the atomic swap of `started`, starts a loop.
unfoldable pub connected : ℕ → System → System
unfolding connect
connected now s =
    if s.connector.started
    then record s { connector = connect now s.connector }
    else record s { connector = connect now s.connector; loop = selecting; loops = s.loops + 1 }

-- A tick that the loop takes at a time. It may take one although `stop` is closed, since `select`
-- chooses among what is ready.
unfoldable pub ticked : ℕ → System → System
unfolding idle_for
ticked now s =
    if ltb (idle_for now s.connector) s.connector.interval then s else record s { loop = touching }

-- The `started.Load()` of `Close`.
unfoldable pub loaded : System → System
loaded s =
    if s.connector.started
    then record s { closing = waiting }
    else record s { closing = past false }

pub data Step : System → System → Type 0 where
  connects : {s : System} (now : ℕ) → Step s (connected now s)
  ticks : {s : System} (now : ℕ) → s.loop ≡ selecting → Step s (ticked now s)
  touches :
      {s : System} (stamp : ℕ)
      → s.loop ≡ touching
      → Step s (record (connected stamp s) { loop = selecting })
  leaves :
      {s : System}
      → s.loop ≡ selecting
      → s.connector.stopped ≡ true
      → Step s (record s { loop = done })
  closes :
      {s : System}
      → s.closing ≡ not_called
      → Step s (record s { connector = record s.connector { stopped = true }; closing = stopping })
  loads : {s : System} → s.closing ≡ stopping → Step s (loaded s)
  waits :
      {s : System} → s.closing ≡ waiting → s.loop ≡ done → Step s (record s { closing = past true })

pub data Steps : System → System → Type 0 where
  here : {s : System} → Steps s s
  then_step : {s t u : System} → Steps s t → Step t u → Steps s u
