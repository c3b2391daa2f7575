-- ===== src/Logger/Tests.antt =====
-- Runs of the logger, with whole numbers in place of `double`.
use my_sqltutorials.Prelude.{
  ℕ, ◌+◌, ◌-◌, ◌*◌, ◌/◌, ◌%◌, ◌≡◌, refl, arith, true, none, some, List, [], ◌∷◌, ◌++◌, ltb, length,
  take, replicate, Chars,
}
use my_sqltutorials.Prelude.Int.{pos, pos_part}
use my_sqltutorials.Prelude.Words.{u64_mod}
use my_sqltutorials.Timer.{Timespec, Timer, TimerState, zero_timespec, is_running, timespec_diff}
use my_sqltutorials.Timer.History.{reset-Summarises}
use my_sqltutorials.Percentile.{Doubles, Percentile, index}
use my_sqltutorials.Percentile.Histogram.{reset-Counts}
use my_sqltutorials.Logger.{Printf, logs, log_errno, Handler}
use my_sqltutorials.Logger.Buffers.{log_errno_lem}
use my_sqltutorials.Logger.Text.{
  TextMsg, repeated, shown, plain, warning, process_all, text_handler_process, text_handler_init,
  same_text, prefix_of, log_timestamp_msg,
}
use my_sqltutorials.Logger.Text.Repeats.{decode, pending, messages, decode-log_text}
use my_sqltutorials.Logger.Oper.{OperAction, OperLog, Allocations, oper_handler_init}
use my_sqltutorials.Logger.Oper.Totals.{IsConsistent}
use my_sqltutorials.Logger.Oper.Steps.{OperCall, message, updates, Shared, run_calls}
use my_sqltutorials.Logger.Oper.Histories.{from_init, sum_events, total-sum_events}
use my_sqltutorials.Percentile
use my_sqltutorials.Timer

abbrev c_printf : Chars → Printf
c_printf s size = (pos (length s), take (size - 1) s)

-- "a", "a", "a", a stamped "b" and "c" with the priority of a warning.
abbrev texts : List TextMsg
texts =
    record { priority = 3; text = 97 ∷ []; flags = 0 }
    ∷ record { priority = 3; text = 97 ∷ []; flags = 0 }
    ∷ record { priority = 3; text = 97 ∷ []; flags = 0 }
    ∷ log_timestamp_msg 3 (98 ∷ [])
    ∷ record { priority = 5; text = 100 ∷ []; flags = 0 }
    ∷ record { priority = 2; text = 99 ∷ []; flags = 0 }
    ∷ []

texts_run : process_all texts (record { verbosity = 3; text_cnt = 0; text_buf = [] }) ≡ (
  shown plain (97 ∷ []) ∷ shown plain (98 ∷ []) ∷ repeated 2 ∷ shown warning (99 ∷ []) ∷ [],
  record { verbosity = 3; text_cnt = 0; text_buf = 99 ∷ [] },
)
unfolding process_all text_handler_process same_text prefix_of
texts_run = refl

decode-log_text_example :
    decode []
        (process_all
          (messages c_printf (λ s size l. refl) ((3, 97 ∷ []) ∷ (3, 97 ∷ []) ∷ (4, 98 ∷ []) ∷ []))
          (record { verbosity = 3; text_cnt = 0; text_buf = [] })).0
      ++ pending
          (process_all
            (messages c_printf (λ s size l. refl) ((3, 97 ∷ []) ∷ (3, 97 ∷ []) ∷ (4, 98 ∷ []) ∷ []))
            (record { verbosity = 3; text_cnt = 0; text_buf = [] })).1
    ≡ (97 ∷ 10 ∷ []) ∷ (97 ∷ 10 ∷ []) ∷ []
unfolding text_handler_init
decode-log_text_example =
    decode-log_text c_printf (λ s size l. refl) 3 ((3, 97 ∷ []) ∷ (3, 97 ∷ []) ∷ (4, 98 ∷ []) ∷ [])
      (record { verbosity = 3; text_cnt = 0; text_buf = [] }) refl (omega arith)

log_errno_example : log_errno (c_printf (97 ∷ [])) (c_printf (32 ∷ [])) ≡ logs (97 ∷ 32 ∷ [])
log_errno_example =
    log_errno_lem (c_printf (97 ∷ [])) (c_printf (32 ∷ [])) (97 ∷ []) (32 ∷ []) (λ size l. refl)
      (λ size l. refl)

abbrev tags : ℕ → Handler (List ℕ) ℕ
tags n = record { init = none; process = some (λ msg s. n ∷ s); done = none }

abbrev numbers : Doubles
numbers = record {
  Double = ℕ;
  lt = ltb;
  add = λ a b. a + b;
  sub = λ a b. a - b;
  mul = λ a b. a * b;
  div = λ a b. a / b;
  of_unsigned = λ a. a;
  half = 0;
  log = λ a. a;
  exp = λ a. a;
  floor = λ a. a;
}

abbrev small : Percentile numbers
small = record {
  values = 0 ∷ 0 ∷ 0 ∷ [];
  tmp = 0 ∷ 0 ∷ 0 ∷ [];
  total = 0;
  size = 3;
  range_min = 0;
  range_max = 2;
  range_deduct = 0;
  range_mult = 1;
}

abbrev at : ℕ → Timespec
at s = record { tv_sec = pos s; tv_nsec = pos 0 }

abbrev idle : Timer
idle = record {
  time_start = zero_timespec;
  time_end = zero_timespec;
  time_split = zero_timespec;
  elapsed = 0;
  min_time = 0xffff_ffff_ffff_ffff;
  max_time = 0;
  sum_time = 0;
  events = 0;
  queue_time = 0;
  state = TimerState.initialized;
}

-- Two threads, the second of which runs an event.
abbrev two_threads : OperLog numbers
two_threads = record {
  timers = idle ∷ record idle { time_start = at 1; state = TimerState.running } ∷ [];
  percentile = small;
  percentile_rank = 95;
}

two_threads-IsConsistent : IsConsistent two_threads ([] ∷ [] ∷ []) []
unfolding index Timer.reset Percentile.reset
two_threads-IsConsistent = record {
  measures = (
    (λ e. cc),
    reset-Summarises idle,
    ((λ e. cc), record { counted = refl; summed = refl; shortest = refl; longest = refl }, tt),
  );
  counts = reset-Counts small;
  in_range = λ v. ground arith;
}

abbrev memory : Allocations
memory = record { values_ok = true; tmp_ok = true; timers = some (idle ∷ []); copy_ok = true }

abbrev started : OperLog numbers
started = record {
  timers = idle ∷ [];
  percentile = record {
    values = replicate 100_000 0;
    tmp = replicate 100_000 0;
    total = 0;
    size = 100_000;
    range_min = 1;
    range_max = 10_000_000_000_000;
    range_deduct = 1;
    range_mult = 0;
  };
  percentile_rank = 95;
}

abbrev calls : List OperCall
calls =
    message (at 1) (at 1) (record { action = OperAction.oper_start; thread_id = 0 })
    ∷ message (at 2) (at 2) (record { action = OperAction.oper_stop; thread_id = 0 })
    ∷ updates 0
    ∷ []

started_state : oper_handler_init numbers (pos 95) memory ≡ some started
unfolding oper_handler_init Percentile.init Timer.init Timer.reset
started_state = refl

total-sum_events_example :
    (s : Shared numbers) × (run_calls pos_part (from_init started) calls ≡ some s)
    × ((s.log.percentile.total + length s.pending) % u64_mod
        ≡ (sum_events s.log.timers + s.carried) % u64_mod)
unfolding index
total-sum_events_example =
    total-sum_events pos_part (pos 95) memory (idle ∷ []) started calls refl started_state
      (λ v. ground arith) (omega arith, (omega arith, tt))
