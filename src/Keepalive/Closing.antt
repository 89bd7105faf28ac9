-- ===== src/Keepalive/Closing.antt =====
-- `Close` of a keepalive connector against the loop.
use libsql_client_go.Base.{
  ℕ, ◌≤◌, ◌≡◌, ◌≢◌, ◌⊎◌, refl, sym, ◌∙◌, inl, inr, true, false, ltb, if◌then◌else◌, if_both, arith,
}
use libsql_client_go.Keepalive.{connect, idle_for}
use libsql_client_go.Keepalive.Loop.{
  CloseState, LoopState, not_started, selecting, touching, done, not_called, stopping, waiting,
  past, System, new_system, connected, ticked, loaded, Step, connects, ticks, touches, leaves,
  closes, loads, waits, Steps, here, then_step,
}

-- What holds of every reachable state.
pub record Sound (s : System) : Type 0 where
  -- The loop is there as soon as `started` is set, and there is only one.
  pub one : s.loops ≡ (if s.connector.started then 1 else 0)
  pub there : s.connector.started ≡ true → s.loop ≢ not_started
  pub absent : s.connector.started ≡ false → s.loop ≡ not_started
  -- The loop leaves, and `Close` is under way, only behind `close(c.stop)`.
  pub stopped : s.closing ≢ not_called → s.connector.stopped ≡ true
  pub awaited : s.closing ≡ waiting → s.connector.started ≡ true
  pub over : s.closing ≡ past true → s.loop ≡ done

new-Sound : (interval : ℕ) → Sound (new_system interval)
new-Sound interval = record {
  one = refl;
  there = λ e. cc;
  absent = λ e. refl;
  stopped = λ h. absurd (h refl);
  awaited = λ e. cc;
  over = λ e. cc;
}

connected-Sound : (now : ℕ) (s : System) → Sound s → Sound (connected now s)
unfolding connected connect
connected-Sound now s h = record {
  one = ground (arith, h.one);
  there = ground (arith, h.there);
  absent = ground (arith, h.absent);
  stopped = ground (arith, h.stopped);
  awaited = ground (arith, h.awaited);
  over = ground (arith, h.over, h.absent);
}

connected-same :
    (now : ℕ) (s : System)
    → ((connected now s).closing ≡ s.closing)
      × ((connected now s).connector.stopped ≡ s.connector.stopped)
unfolding connected connect
connected-same now s = ground arith

-- A loop that is there may go on anywhere, if nobody has waited for it.
moved-Sound :
    (s : System) (l : LoopState)
    → Sound s
    → s.connector.started ≡ true
    → l ≢ not_started
    → (s.closing ≢ past true) ⊎ (l ≡ done)
    → Sound (record s { loop = l })
moved-Sound s l h on n w = record {
  one = h.one;
  there = λ e. n;
  absent = λ e. absurd (ground arith);
  stopped = h.stopped;
  awaited = h.awaited;
  over = λ e. elim w [ inl never ↦ absurd (never e) | inr d ↦ d ];
}

started-by : (s : System) → Sound s → s.loop ≢ not_started → s.connector.started ≡ true
started-by s h n = ground (arith, h.absent)

-- A loop that is not done has not been waited for.
at_work : (s : System) → Sound s → (l : LoopState) → s.loop ≡ l → l ≢ done → s.closing ≢ past true
at_work s h l e n = λ c. n (sym e ∙ h.over c)

connected-started : (now : ℕ) (s : System) → (connected now s).connector.started ≡ true
unfolding connected connect
connected-started now s = ground arith

loaded-Sound : (s : System) → Sound s → s.closing ≡ stopping → Sound (loaded s)
unfolding loaded
loaded-Sound s h at_load = record {
  one = ground (arith, h.one);
  there = ground (arith, h.there);
  absent = ground (arith, h.absent);
  stopped = ground (arith, h.stopped);
  awaited = ground (arith, h.awaited);
  over = ground (arith, h.over);
}

ticked-Sound : (now : ℕ) (s : System) → Sound s → s.loop ≡ selecting → Sound (ticked now s)
unfolding ticked
ticked-Sound now s h at_select =
    if_both Sound (ltb (idle_for now s.connector) s.connector.interval) h (
      moved-Sound s touching h (started-by s h (λ e. cc)) (λ e. cc)
        (inl (at_work s h selecting at_select (λ e. cc))))

Step-Sound : {s t : System} → Step s t → Sound s → Sound t
Step-Sound {s} (connects now) h = connected-Sound now s h
Step-Sound {s} (ticks now e) h = ticked-Sound now s h e
Step-Sound {s} (touches stamp e) h =
    moved-Sound (connected stamp s) selecting (connected-Sound stamp s h)
      (connected-started stamp s) (λ e'. cc)
      (inl (λ c. at_work s h touching e (λ e'. cc) (sym (connected-same stamp s).0 ∙ c)))
Step-Sound {s} (leaves e k) h =
    moved-Sound s done h (started-by s h (λ e'. cc)) (λ e'. cc) (inr refl)
Step-Sound {s} (closes e) h = record {
  one = h.one;
  there = h.there;
  absent = h.absent;
  stopped = λ n. refl;
  awaited = λ e'. cc;
  over = λ e'. cc;
}
Step-Sound {s} (loads e) h = loaded-Sound s h e
Step-Sound {s} (waits e k) h = record {
  one = h.one;
  there = h.there;
  absent = h.absent;
  stopped = λ n. h.stopped (λ e'. cc);
  awaited = λ e'. cc;
  over = λ e'. k;
}

Steps-Sound : (interval : ℕ) {s : System} → Steps (new_system interval) s → Sound s
Steps-Sound interval here = new-Sound interval
Steps-Sound interval (then_step r step) = Step-Sound step (Steps-Sound interval r)

-- In any order of the steps one loop is started by the first `Connect` and no other ever, so that `done` is
-- closed at most once; and where `Close` has waited, the loop is over: no touch comes any more.
pub Steps-over :
    (interval : ℕ) (s : System)
    → Steps (new_system interval) s
    → (s.loops ≡ (if s.connector.started then 1 else 0))
      × ((s.closing ≢ past true) ⊎ (s.loop ≡ done))
Steps-over interval s r = let h = Steps-Sound interval r in (h.one, by_close s.closing refl h)
  where
    by_close :
        (c : CloseState) → s.closing ≡ c → Sound s → (s.closing ≢ past true) ⊎ (s.loop ≡ done)
    by_close (past true) e h = inr (h.over e)
    by_close (past false) e h = inl (λ k. cc)
    by_close not_called e h = inl (λ k. cc)
    by_close stopping e h = inl (λ k. cc)
    by_close waiting e h = inl (λ k. cc)

-- What the loop and `Close` do by themselves, with no call of `Connect` from outside and no tick, and how
-- often the loop touches the database.
pub data Unaided : ℕ → System → System → Type 0 where
  passes :
      {s : System}
      → s.closing ≡ waiting
      → s.loop ≡ done
      → Unaided 0 s (record s { closing = past true })
  ends :
      {s t : System}
      → s.loop ≡ selecting
      → s.connector.stopped ≡ true
      → Unaided 0 (record s { loop = done }) t
      → Unaided 0 s t
  touches_once :
      {s t : System} (stamp : ℕ)
      → s.loop ≡ touching
      → Unaided 0 (record (connected stamp s) { loop = selecting }) t
      → Unaided 1 s t

abbrev Returns : System → Type 0
Returns s = (n : ℕ) × (t : System) × (n ≤ 1) × Unaided n s t × (t.closing ≡ past true)
