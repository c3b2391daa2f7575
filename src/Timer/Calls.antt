-- ===== src/Timer/Calls.antt =====
-- Whole histories of calls on one timer.
use my_sqltutorials.Prelude.{ℕ, ◌≡◌, ◌≢◌, refl, arith, Option, none, some, List, [], ◌∷◌}
use my_sqltutorials.Prelude.Words.{add64}
use my_sqltutorials.Timer.{
  Timespec, Timer, TimerState, Warning, running, uninitialized, timespec_diff, zero_timespec, reset,
  init, start, stop, update, finish, value, split,
}
use my_sqltutorials.Timer.History.{
  Summarises, duration, finish-Summarises, init-Summarises, reset-Summarises,
}

-- A call on a timer, with the reading of the clock that it takes.
pub data Call : Type 0 where
  starts stops values splits : Timespec → Call
  resets : Call

-- The timer after a call.
abbrev pub after {ℓ} : {A : Type ℓ} → Option (A × Timer) → Option Timer
after none = none
after (some (_, t)) = some t

abbrev pub after₂ {ℓ} : {A : Type ℓ} → Option (A × List Warning × Timer) → Option Timer
after₂ none = none
after₂ (some (_, _, t)) = some t

unfoldable pub step : Timer → Call → Option Timer
step t (starts now) = after (start now t)
step t (stops now) = after (stop now t)
step t (values now) = after₂ (value now t)
step t (splits now) = after₂ (split now t)
step t resets = some (reset t)

unfoldable pub run : Timer → List Call → Option Timer
run t [] = some t
run t (c ∷ cs) = elim (step t c) [ none ↦ none | some u ↦ run u cs ]

-- The durations that a history measures, latest first: `from` is the reading of the last start, and
-- the event spent `queued` nanoseconds waiting.
unfoldable pub measured : (from : Timespec) (queued : ℕ) → List ℕ → List Call → List ℕ
measured from queued xs [] = xs
measured from queued xs (starts now ∷ cs) = measured now queued xs cs
measured from queued xs (stops now ∷ cs) =
    measured from queued (add64 (timespec_diff now from) queued ∷ xs) cs
measured from queued xs (values now ∷ cs) = measured from queued xs cs
measured from queued xs (splits now ∷ cs) = measured from queued xs cs
measured from queued xs (resets ∷ cs) = measured from 0 [] cs

abbrev IsReady : Timer → Type 0
IsReady t = t.state ≢ uninitialized

-- What every history keeps.
record Follows (t : Timer) (from : Timespec) (queued : ℕ) (xs : List ℕ) : Type 0 where
  ready : IsReady t
  since : t.time_start ≡ from
  waited : t.queue_time ≡ queued
  counters : Summarises t xs

module _ {t : Timer} {from : Timespec} {queued : ℕ} {xs : List ℕ}
    (f : Follows t from queued xs) where
  start-Follows :
      (now : Timespec) → (u : Timer) × (after (start now t) ≡ some u) × Follows u now queued xs
  unfolding start
  start-Follows now =
      (record t { time_start = now; time_split = now; state = running }, ground arith, ground arith)

  stop-Follows :
      (now : Timespec)
      → (u : Timer) × (after (stop now t) ≡ some u)
        × Follows u from queued (add64 (timespec_diff now from) queued ∷ xs)
  unfolding stop update duration
  stop-Follows now = (finish now t, ground arith, ground (arith, finish-Summarises now t xs))

  value-Follows :
      (now : Timespec) → (u : Timer) × (after₂ (value now t) ≡ some u) × Follows u from queued xs
  unfolding value
  value-Follows now =
      (elim t.state [ TimerState.running ↦ update now t | _ ↦ t ], ground arith, ground arith)

  split-Follows :
      (now : Timespec) → (u : Timer) × (after₂ (split now t) ≡ some u) × Follows u from queued xs
  unfolding split
  split-Follows now = (
    elim t.state [
      | TimerState.running ↦ record t { elapsed = timespec_diff now t.time_start; time_split = now }
      | TimerState.stopped ↦ record t { time_split = t.time_end }
      | _ ↦ t
    ],
    ground arith,
    ground arith,
  )

  reset-Follows : Follows (reset t) from 0 []
  unfolding reset
  reset-Follows = record {
    ready = f.ready;
    since = f.since;
    waited = refl;
    counters = reset-Summarises t;
  }

run-Follows :
    (t : Timer) (from : Timespec) (queued : ℕ) (xs : List ℕ) (cs : List Call)
    → Follows t from queued xs
    → (u : Timer) × (run t cs ≡ some u) × Summarises u (measured from queued xs cs)
unfolding run step measured
run-Follows t from queued xs [] f = (t, refl, f.counters)
run-Follows t from queued xs (starts now ∷ cs) f =
    let (u, e, g) = start-Follows f now in
    let (v, e', h) = run-Follows u now queued xs cs g in (v, rw (e, run) e', h)
run-Follows t from queued xs (stops now ∷ cs) f =
    let (u, e, g) = stop-Follows f now in
    let (v, e', h) = run-Follows u from queued _ cs g in (v, rw (e, run) e', h)
run-Follows t from queued xs (values now ∷ cs) f =
    let (u, e, g) = value-Follows f now in
    let (v, e', h) = run-Follows u from queued xs cs g in (v, rw (e, run) e', h)
run-Follows t from queued xs (splits now ∷ cs) f =
    let (u, e, g) = split-Follows f now in
    let (v, e', h) = run-Follows u from queued xs cs g in (v, rw (e, run) e', h)
run-Follows t from queued xs (resets ∷ cs) f = run-Follows (reset t) from 0 [] cs (reset-Follows f)

-- After `sb_timer_init`, no history of starts, stops, queries, splits and resets aborts, and the
-- counters that it ends with are the number (mod 2^64), the sum (mod 2^64), the minimum and the
-- maximum of the durations measured since the last reset.
pub run-Summarises :
    (t : Timer) (cs : List Call)
    → (u : Timer) × (run (init t) cs ≡ some u) × Summarises u (measured zero_timespec 0 [] cs)
unfolding init
run-Summarises t cs =
    run-Follows (init t) zero_timespec 0 [] cs
      (record { ready = λ e. cc; since = refl; waited = refl; counters = init-Summarises t })
