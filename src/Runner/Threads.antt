-- ===== src/Runner/Threads.antt =====
-- A thread that executes requests (runner_thread) with the operations of its test: get_request and
-- execute_request, which may be missing. A round takes what the thread meets in it as an argument.
pub mod Concurrency
use my_sqltutorials.Prelude.{
  ℕ, zero, suc, ◌+◌, ◌-◌, ◌*◌, ◌/◌, ◌%◌, ◌^◌, ◌≤◌, ◌<◌, ◌≡◌, ◌≢◌, ◌↔◌, ◌⊎◌, inl, inr, refl, ap, sym,
  ◌∙◌, arith, Bool, true, false, not, Option, none, some, List, [], ◌∷◌, ◌++◌, map, ltb, leb, ◌==◌,
  ◌&&◌, ◌||◌, if◌then◌else◌, Bool-cases, length, get_elem?, set, take, drop, replicate,
  length-append, get_elem?-set_ne, get_elem?-set_self, foldr, Chars,
}
use my_sqltutorials.Prelude.Int.{ℤ, pos, ◌+ℤ◌, ◌-ℤ◌}
use my_sqltutorials.Prelude.Words.{sub64, add32, sub32}
use my_sqltutorials.Timer.{sec2ns}

-- The answers of a test to a thread: whether its request is not of the type SB_REQ_TYPE_NULL, and
-- whether execute_request gives an error.
unfoldable pub get_request : (answer : Option Bool) → Bool
get_request none = false
get_request (some asked) = asked

unfoldable pub execute_request : (answer : Option Bool) → Bool
execute_request none = true
execute_request (some failed) = failed

-- What a thread meets in a round: `queue_is_full`, the time of the event taken from the queue, the
-- readings of the timer for it and behind the request, the answers, and `sb_globals.error`.
pub record Round : Type 0 where
  pub queue_is_full : Bool
  pub queue_start_time : ℕ
  pub taken_at : ℕ
  pub asked : Option Bool
  pub failed : Option Bool
  pub done_at : ℕ
  pub error : Bool

-- How a thread leaves its loop; `unfinished` is a thread that goes on behind the rounds given.
pub data Leaves : Type 0 where
  full failure time_limit no_more unfinished : Leaves

-- The effects of a thread: its changes of `sb_globals.concurrency`, the `queue_time` of its timer,
-- and how many requests it has executed without
-- an error.
pub record Effects : Type 0 where
  pub concurrency : ℤ
  pub queue_time : ℕ
  pub executed : ℕ

-- The event taken from the queue, in the mode with a rate.
abbrev begin_event : Bool → Round → Effects → Effects
begin_event has_rate r s =
    if has_rate
    then record s {
      concurrency = s.concurrency +ℤ pos 1;
      queue_time = sub64 r.taken_at r.queue_start_time;
    }
    else s

abbrev end_event : Bool → Effects → Effects
end_event has_rate s = if has_rate then record s { concurrency = s.concurrency -ℤ pos 1 } else s

abbrev count_executed : Bool → Effects → Effects
count_executed asked s = if asked then record s { executed = s.executed + 1 } else s

abbrev pub over_time : (max_time : ℕ) → Round → Bool
over_time max_time r = not (max_time == 0) && leb (sec2ns max_time) r.done_at

-- A round up to its end: how the thread leaves the loop in it, or that it goes on.
unfoldable pub round : (has_rate : Bool) (max_time : ℕ) → Round → Effects → Option Leaves × Effects
unfolding get_request execute_request
round has_rate max_time r s =
    let asked = get_request r.asked in
    let begun = begin_event has_rate r s in
    let ended = end_event has_rate (count_executed asked begun) in
    if has_rate && r.queue_is_full
    then (some full, s)
    else if asked && execute_request r.failed
    then (some failure, begun)
    else if over_time max_time r
    then (some time_limit, ended)
    else if asked && not r.error
    then (none, ended)
    else (some no_more, ended)

unfoldable pub rounds : (has_rate : Bool) (max_time : ℕ) → List Round → Effects → Leaves × Effects
rounds has_rate max_time [] s = (unfinished, s)
rounds has_rate max_time (r ∷ rs) s =
    let (leaves, t) = round has_rate max_time r s in
    elim leaves [ none ↦ rounds has_rate max_time rs t | some l ↦ (l, t) ]

-- What a thread leaves behind: the flag of an error, `num_running`, its effects, and whether
-- thread_done was called.
pub record ThreadEnd : Type 0 where
  pub error : Bool
  pub num_running : ℕ
  pub effects : Effects
  pub thread_done : Bool

-- `thread_init` is the test's function with whether it fails, and `has_done` whether there is
-- thread_done. A thread whose rounds are not over still counts as running.
unfoldable pub runner_thread :
    (thread_init : Option Bool) (has_done has_rate : Bool) (max_time : ℕ)
    → List Round
    → (num_running : ℕ) → Effects
    → Leaves × ThreadEnd
runner_thread thread_init has_done has_rate max_time rs num_running s = elim thread_init [
  | some true ↦ (
    failure,
    record { error = true; num_running = num_running; effects = s; thread_done = false },
  )
  | _ ↦
      let (leaves, t) = rounds has_rate max_time rs s in
      elim leaves [
        | unfinished ↦ (
          unfinished,
          record {
            error = false;
            num_running = add32 num_running 1;
            effects = t;
            thread_done = false;
          },
        )
        | l ↦ (
          l,
          record {
            error = false;
            num_running = sub32 (add32 num_running 1) 1;
            effects = t;
            thread_done = has_done;
          },
        )
      ]
]
