-- ===== src/Runner/Queue.antt =====
-- The queue of events between the thread that generates them (eventgen_thread_proc) and those that
-- execute them (runner_thread). Each function is what one thread does under `event_queue_mutex`, so
-- a run is a sequence of them, in any order.
pub mod Window
pub mod Fifo
use my_sqltutorials.Prelude.{
  ℕ, zero, suc, ◌+◌, ◌-◌, ◌*◌, ◌/◌, ◌%◌, ◌^◌, ◌≤◌, ◌<◌, ◌≡◌, ◌≢◌, ◌↔◌, ◌⊎◌, inl, inr, refl, ap, sym,
  ◌∙◌, arith, Bool, true, false, not, Option, none, some, List, [], ◌∷◌, ◌++◌, map, ltb, leb, ◌==◌,
  ◌&&◌, ◌||◌, if◌then◌else◌, Bool-cases, length, get_elem?, set, take, drop, replicate,
  length-append, get_elem?-set_ne, get_elem?-set_self, foldr, Chars,
}
use my_sqltutorials.Prelude.Int.{ℤ, pos, ◌+ℤ◌, ◌-ℤ◌}

-- MAX_QUEUE_LEN
abbrev pub max_queue_len : ℕ
max_queue_len = 100_000

-- The fields of `sb_globals`, the static variables, and `i` and the end of the generating thread.
pub record EventQueue : Type 0 where
  -- The event_time of each element of `queue_array`.
  pub event_time : ℕ → ℕ
  -- The indices of the elements that are linked in `event_queue`, from its head on.
  pub event_queue : List ℕ
  pub event_queue_length : ℕ
  pub queue_is_full : Bool
  pub concurrency : ℤ
  pub i : ℕ
  pub ended : Bool

-- What run_test and the start of the generating thread set.
abbrev pub no_events : (event_time : ℕ → ℕ) → EventQueue
no_events event_time = record {
  event_time = event_time;
  event_queue = [];
  event_queue_length = 0;
  queue_is_full = false;
  concurrency = pos 0;
  i = 0;
  ended = false;
}

abbrev pub write : (ℕ → ℕ) → ℕ → ℕ → ℕ → ℕ
write f i v j = if i == j then v else f j

-- The index behind `i`.
abbrev pub next_index : ℕ → ℕ
next_index i = if leb max_queue_len (i + 1) then 0 else i + 1

-- One round of the generating thread, for the reading of the timer. The code writes the time before
-- it takes the mutex, to an element that no other thread reads then.
unfoldable pub add_event : ℕ → EventQueue → EventQueue
add_event time q =
    let full = q.queue_is_full || leb max_queue_len (q.event_queue_length + 1) in
    record q {
      event_time = write q.event_time q.i time;
      event_queue = q.event_queue ++ q.i ∷ [];
      event_queue_length = q.event_queue_length + 1;
      queue_is_full = full;
      i = if full then q.i else next_index q.i;
      ended = full;
    }

-- A thread takes the first event: `none` is the wait for the condition variable. When no element is
-- linked, it goes on with the time `last` of its event before.
unfoldable pub take_event : (last : ℕ) → EventQueue → Option (ℕ × EventQueue)
take_event last q = if q.event_queue_length == 0 then none else elim q.event_queue [
  | [] ↦ some (last, record q { concurrency = q.concurrency +ℤ pos 1 })
  | j ∷ js ↦ some (
    q.event_time j,
    record q {
      event_queue = js;
      event_queue_length = q.event_queue_length - 1;
      concurrency = q.concurrency +ℤ pos 1;
    },
  )
]

-- A thread has executed an event.
unfoldable pub finish_event : EventQueue → EventQueue
finish_event q = record q { concurrency = q.concurrency -ℤ pos 1 }
