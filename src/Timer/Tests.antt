-- ===== src/Timer/Tests.antt =====
-- Runs of the timer, and its theorems at concrete readings of the clock.
use my_sqltutorials.Prelude.{ℕ, ◌≡◌, refl, none, some, List, [], ◌∷◌, arith}
use my_sqltutorials.Prelude.Int.{pos, negsuc, ◌+ℤ◌, ◌-ℤ◌, ◌/ℤ◌, ◌%ℤ◌}
use my_sqltutorials.Timer.{
  Timespec, Timer, TimerState, uninitialized, zero_timespec, timespec_diff, init, start, stop,
  finish, add_ns,
}
use my_sqltutorials.Timer.Clock.{tv_nsec-add_ns}
use my_sqltutorials.Timer.History.{Summarises}
use my_sqltutorials.Timer.Calls.{Call, starts, stops, run, measured, run-Summarises}

abbrev at : ℕ → ℕ → Timespec
at s n = record { tv_sec = pos s; tv_nsec = pos n }

abbrev blank : Timer
blank = record {
  time_start = zero_timespec;
  time_end = zero_timespec;
  time_split = zero_timespec;
  elapsed = 0;
  min_time = 0;
  max_time = 0;
  sum_time = 0;
  events = 0;
  queue_time = 0;
  state = uninitialized;
}

abbrev two_events : List Call
two_events =
    starts (at 1 900_000_000) ∷ stops (at 2 100_000_000) ∷ starts (at 3 0) ∷ stops (at 3 50) ∷ []

abbrev measured_once : Timer
measured_once = record blank {
  min_time = 50;
  max_time = 200;
  sum_time = 250;
  events = 2;
  state = TimerState.stopped;
}

start_blank : start zero_timespec blank ≡ none
unfolding start
start_blank = refl

measured_two : measured zero_timespec 0 [] two_events ≡ 50 ∷ 200_000_000 ∷ []
unfolding measured timespec_diff ◌-ℤ◌
measured_two = refl

borrow : add_ns (at 5 300) (negsuc 399) ≡ at 4 999_999_900
unfolding add_ns ◌+ℤ◌ ◌-ℤ◌ ◌/ℤ◌ ◌%ℤ◌
borrow = refl

-- One second exactly is left as a thousand million nanoseconds.
full_second : (add_ns (at 5 300) (pos 999_999_700)).tv_nsec ≡ pos 1_000_000_000
unfolding ◌+ℤ◌
full_second = (tv_nsec-add_ns (at 5 300) (pos 999_999_700)).2.1 (ground arith)

run-Summarises_example :
    (u : Timer) × (run (init blank) two_events ≡ some u)
    × Summarises u (measured zero_timespec 0 [] two_events)
run-Summarises_example = run-Summarises blank two_events

measured_once-Summarises : Summarises measured_once (200 ∷ 50 ∷ [])
measured_once-Summarises = record { counted = refl; summed = refl; shortest = refl; longest = refl }

abbrev ticking : Timer
ticking = record measured_once { time_start = at 3 0; state = TimerState.running }

ticking-Summarises : Summarises ticking (200 ∷ 50 ∷ [])
ticking-Summarises = record { counted = refl; summed = refl; shortest = refl; longest = refl }

stopped_ticking : stop (at 3 70) ticking ≡ some ([], finish (at 3 70) ticking)
unfolding stop
stopped_ticking = refl
