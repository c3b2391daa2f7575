-- ===== src/Timer/History.antt =====
-- What the counters of a timer stand for: the durations that it has measured since the last reset.
use my_sqltutorials.Prelude.{ℕ, ◌%◌, ◌≡◌, refl, arith, some, List, [], ◌∷◌, length, sum, min, max}
use my_sqltutorials.Prelude.Words.{u64_mod, add64}
use my_sqltutorials.Timer.{
  Timespec, Timer, TimerState, Warning, timespec_diff, reset, init, stop, finish, update,
}

abbrev pub least : List ℕ → ℕ
least [] = 0xffff_ffff_ffff_ffff
least (x ∷ xs) = min x (least xs)

abbrev pub greatest : List ℕ → ℕ
greatest [] = 0
greatest (x ∷ xs) = max x (greatest xs)

-- The counters of `t` are those of the durations `xs`, latest first; counts and sums wrap.
pub record Summarises (t : Timer) (xs : List ℕ) : Type 0 where
  pub counted : t.events ≡ length xs % u64_mod
  pub summed : t.sum_time ≡ sum xs % u64_mod
  pub shortest : t.min_time ≡ least xs
  pub longest : t.max_time ≡ greatest xs

pub reset-Summarises : (t : Timer) → Summarises (reset t) []
unfolding reset
reset-Summarises t = record { counted = refl; summed = refl; shortest = refl; longest = refl }

pub init-Summarises : (t : Timer) → Summarises (init t) []
unfolding init
init-Summarises t = record { counted = refl; summed = refl; shortest = refl; longest = refl }

-- The duration that a stop at `now` measures.
unfoldable pub duration : Timespec → Timer → ℕ
duration now t = add64 (timespec_diff now t.time_start) t.queue_time

pub finish-Summarises :
    (now : Timespec) (t : Timer) (xs : List ℕ)
    → Summarises t xs
    → Summarises (finish now t) (duration now t ∷ xs)
unfolding finish update duration
finish-Summarises now t xs h = ground arith

-- A successful stop counts one event more, of the time since the last start plus the time that the
-- event spent in the queue; it sets `elapsed` to it, and leaves the timer stopped.
pub stop-Summarises :
    (now : Timespec) (t : Timer) (xs : List ℕ) {w : List Warning} {u : Timer}
    → Summarises t xs
    → stop now t ≡ some (w, u)
    → Summarises u (duration now t ∷ xs)
      × (u.elapsed ≡ duration now t)
      × (u.state ≡ TimerState.stopped)
unfolding stop duration update
stop-Summarises now t xs h e = ground (arith, finish-Summarises now t xs)
