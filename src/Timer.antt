-- ===== src/Timer.antt =====
-- sysbench-0.5/sysbench/sb_timer.c and sb_timer.h: the timers that measure events and reports.
-- `SB_GETTIME` is outside the program: each operation that reads the clock takes the reading.
-- `none` is `abort()`, which a timer that was never initialized ends in.
pub mod Clock
pub mod History
pub mod Merge
pub mod Calls
pub mod Average
mod Tests
use my_sqltutorials.Prelude.{
  ℕ, ◌+◌, ◌-◌, ◌*◌, ◌/◌, ◌%◌, ◌^◌, Bool, true, false, Option, none, some, List, [], ◌∷◌, ltb, ◌==◌,
  if◌then◌else◌,
}
use my_sqltutorials.Prelude.Int.{ℤ, pos, negsuc, ◌+ℤ◌, ◌-ℤ◌, ◌/ℤ◌, ◌%ℤ◌, ltb_ℤ}
use my_sqltutorials.Prelude.Words.{u64_mod, add64, to_u64}

-- `struct timespec`; its fields are signed and do not overflow.
pub record Timespec : Type 0 where
  pub tv_sec : ℤ
  pub tv_nsec : ℤ

abbrev pub zero_timespec : Timespec
zero_timespec = record { tv_sec = pos 0; tv_nsec = pos 0 }

abbrev pub ns_per_sec : ℕ
ns_per_sec = 1_000_000_000

abbrev pub sec2ns : ℕ → ℕ
sec2ns sec = sec * ns_per_sec % u64_mod

-- TIMESPEC_DIFF: the differences of the fields are signed, the sum is unsigned.
unfoldable pub timespec_diff : Timespec → Timespec → ℕ
timespec_diff a b = add64 (sec2ns (to_u64 (a.tv_sec -ℤ b.tv_sec))) (to_u64 (a.tv_nsec -ℤ b.tv_nsec))

pub data TimerState : Type 0 where
  uninitialized initialized stopped running : TimerState

pub record Timer : Type 0 where
  pub time_start : Timespec
  pub time_end : Timespec
  pub time_split : Timespec
  pub elapsed : ℕ
  pub min_time : ℕ
  pub max_time : ℕ
  pub sum_time : ℕ
  pub events : ℕ
  pub queue_time : ℕ
  pub state : TimerState

-- The text passed to `log_text` on the paths that go on.
pub data Warning : Type 0 where
  already_started never_started already_stopped : Warning

-- sb_timer_update
unfoldable pub update : Timespec → Timer → Timer
update now t = record t {
  time_end = now;
  elapsed = add64 (timespec_diff now t.time_start) t.queue_time;
}

unfoldable pub reset : Timer → Timer
reset t = record t {
  min_time = 0xffff_ffff_ffff_ffff;
  max_time = 0;
  sum_time = 0;
  events = 0;
  elapsed = 0;
  queue_time = 0;
}

unfoldable pub init : Timer → Timer
unfolding reset
init t = record cleared { state = initialized }
  where
    cleared : Timer
    cleared = reset (record t {
      time_start = zero_timespec;
      time_end = zero_timespec;
      time_split = zero_timespec;
    })

unfoldable pub is_initialized : Timer → Bool
is_initialized t = elim t.state [ uninitialized ↦ false | _ ↦ true ]

unfoldable pub is_running : Timer → Bool
is_running t = elim t.state [ running ↦ true | _ ↦ false ]

abbrev begin : Timespec → Timer → Timer
begin now t = record t { time_start = now; time_split = now; state = running }

unfoldable pub start : Timespec → Timer → Option (List Warning × Timer)
start now t = elim t.state [
  | uninitialized ↦ none
  | initialized ↦ some ([], begin now t)
  | stopped ↦ some ([], begin now t)
  | running ↦ some (already_started ∷ [], begin now t)
]

-- The tail of sb_timer_stop, after the switch.
pub finish : Timespec → Timer → Timer
finish now t = record u {
  events = add64 u.events 1;
  sum_time = add64 u.sum_time u.elapsed;
  min_time = if ltb u.elapsed u.min_time then u.elapsed else u.min_time;
  max_time = if ltb u.max_time u.elapsed then u.elapsed else u.max_time;
  state = stopped;
}
  where
    u : Timer
    u = update now t

unfoldable pub stop : Timespec → Timer → Option (List Warning × Timer)
unfolding finish
stop now t = elim t.state [
  | uninitialized ↦ none
  | initialized ↦ some (never_started ∷ [], finish now t)
  | stopped ↦ some (already_stopped ∷ [], finish now t)
  | running ↦ some ([], finish now t)
]

-- sb_timer_value
unfoldable pub value : Timespec → Timer → Option (ℕ × List Warning × Timer)
unfolding update
value now t = elim t.state [
  | uninitialized ↦ none
  | initialized ↦ some (0, never_started ∷ [], t)
  | stopped ↦ some (t.elapsed, [], t)
  | running ↦ some ((update now t).elapsed, [], update now t)
]

-- sb_timer_split on a stopped timer
split_stopped : Timer → ℕ × List Warning × Timer
split_stopped t =
    let res = timespec_diff t.time_end t.time_split in
    (res, (if res == 0 then already_stopped ∷ [] else []), record t { time_split = t.time_end })

unfoldable pub split : Timespec → Timer → Option (ℕ × List Warning × Timer)
unfolding split_stopped
split now t = elim t.state [
  | uninitialized ↦ none
  | initialized ↦ some (0, never_started ∷ [], t)
  | stopped ↦ some (split_stopped t)
  | running ↦ some (
    timespec_diff now t.time_split,
    [],
    record t { elapsed = timespec_diff now t.time_start; time_split = now },
  )
]

unfoldable pub avg_time : Timer → ℕ
avg_time t = if t.events == 0 then 0 else t.sum_time / t.events

-- merge_timers: the other fields are zero, by `memset`.
unfoldable pub merge : Timer → Timer → Timer
merge t1 t2 = record {
  time_start = zero_timespec;
  time_end = zero_timespec;
  time_split = zero_timespec;
  elapsed = add64 t1.elapsed t2.elapsed;
  min_time = if ltb t1.min_time t2.min_time then t1.min_time else t2.min_time;
  max_time = if ltb t2.max_time t1.max_time then t1.max_time else t2.max_time;
  sum_time = add64 t1.sum_time t2.sum_time;
  events = add64 t1.events t2.events;
  queue_time = 0;
  state = uninitialized;
}

-- The three branches of add_ns_to_timespec, for the sum `x` of the nanoseconds.
pub settle : Timespec → ℤ → Timespec
settle dest x =
    if ltb_ℤ (pos ns_per_sec) x
    then record { tv_sec = dest.tv_sec +ℤ (x /ℤ ns_per_sec); tv_nsec = x %ℤ ns_per_sec }
    else if ltb_ℤ x (pos 0)
    then record {
      tv_sec = dest.tv_sec -ℤ pos 1 +ℤ (x /ℤ ns_per_sec);
      tv_nsec = (x %ℤ ns_per_sec) +ℤ pos ns_per_sec;
    }
    else record dest { tv_nsec = x }

unfoldable pub add_ns : Timespec → ℤ → Timespec
unfolding settle
add_ns dest delta = settle dest (dest.tv_nsec +ℤ delta)
