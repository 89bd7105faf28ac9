-- ===== src/Keepalive/Tests.antt =====
-- Ticks on concrete times.
use libsql_client_go.Base.{◌≢◌, ◌⊎◌, if◌then◌else◌, ◌*◌, ◌+◌, ◌<◌, ◌≡◌, refl, true, false, arith}
use libsql_client_go.Keepalive.Loop.{
  System, new_system, connected, loaded, done, stopping, past, Steps, here, then_step, connects,
  closes, loads, leaves, waits,
}
use libsql_client_go.Keepalive.Closing.{Steps-over}
use libsql_client_go.Keepalive.{
  connect, KeepaliveConnector, idle_for, tick, loop_round, idle_for-loop_round,
}

abbrev touched : KeepaliveConnector
touched = record { interval = 100; last_activity = 101; started = true; stopped = false }

-- The touch of the tick at 100 is stamped at 101, so the tick at 200 finds 99 and is skipped.
next_tick_skipped : tick 200 201 touched ≡ (touched, false)
unfolding tick
next_tick_skipped = refl

idle_two_intervals : idle_for 300 (tick 200 201 touched).0 ≡ 199
unfolding tick idle_for
idle_two_intervals = refl

idle_for-loop_round_example : idle_for 300 (loop_round 200 201 touched).0 < 2 * 100 + 0
idle_for-loop_round_example =
    idle_for-loop_round 200 201 300 0 touched refl (omega arith) (omega arith) (omega arith)
      (omega arith) (omega arith)

-- A caller connects, `Close` stops the loop and waits, and the loop leaves.
abbrev in_use : System
in_use = connected 5 (new_system 10)

abbrev stopped_system : System
stopped_system = record in_use {
  connector = record in_use.connector { stopped = true };
  closing = stopping;
}

abbrev waiting_system : System
waiting_system = loaded stopped_system

abbrev left_system : System
left_system = record waiting_system { loop = done }

abbrev closed_system : System
closed_system = record left_system { closing = past true }

waiting_Steps : Steps (new_system 10) waiting_system
unfolding connected loaded connect
waiting_Steps =
    then_step {t = stopped_system}
      (then_step {t = in_use} (then_step {t = new_system 10} here (connects 5)) (closes refl))
      (loads refl)

closed_Steps : Steps (new_system 10) closed_system
unfolding connected loaded connect
closed_Steps =
    then_step {t = left_system} (then_step {t = waiting_system} waiting_Steps (leaves refl refl))
      (waits refl refl)

Steps-over_example :
    (closed_system.loops ≡ (if closed_system.connector.started then 1 else 0))
    × ((closed_system.closing ≢ past true) ⊎ (closed_system.loop ≡ done))
Steps-over_example = Steps-over 10 closed_system closed_Steps
