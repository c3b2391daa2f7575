-- ===== src/Logger/Oper.antt =====
-- The handler of the messages that events start and stop, and the report of the statistics. The
-- timers are those of the threads, in order; a lock is taken and released around each step. The
-- warnings of the timers are not kept. `none`
-- is an abort of a timer, or an access out of bounds.
pub mod Totals
pub mod Reports
pub mod Steps
pub mod Histories
use my_sqltutorials.Prelude.{
  ℕ, zero, suc, ◌+◌, ◌-◌, ◌*◌, ◌/◌, ◌%◌, ◌^◌, ◌≤◌, ◌<◌, ◌≡◌, ◌≢◌, ◌↔◌, ◌⊎◌, inl, inr, refl, ap, sym,
  ◌∙◌, arith, Bool, true, false, not, Option, none, some, List, [], ◌∷◌, ◌++◌, map, ltb, leb, ◌==◌,
  ◌&&◌, ◌||◌, if◌then◌else◌, Bool-cases, length, get_elem?, get_or, set, take, drop, replicate,
  length-append, get_elem?-set_ne, get_elem?-set_self, foldr, Chars,
}
use my_sqltutorials.Prelude.Int.{ℤ, pos, negsuc}
use my_sqltutorials.Prelude.Words.{add32, u32_mod, to_u32, signed64}
use my_sqltutorials.Timer.{Timespec, Timer, Warning, start, stop, value, split, merge, is_running}
use my_sqltutorials.Percentile.{Doubles, Percentile, calculate}
use my_sqltutorials.Timer
use my_sqltutorials.Percentile

-- log_msg_oper_action_t
pub data OperAction : Type 0 where
  oper_start oper_stop : OperAction

pub record OperMsg : Type 0 where
  pub action : OperAction
  pub thread_id : ℕ

-- `timers`, `percentile` and `sb_globals.percentile_rank`.
pub record OperLog (d : Doubles) : Type 0 where
  pub timers : List Timer
  pub percentile : Percentile d
  pub percentile_rank : ℕ

abbrev pub oper_log_granularity : ℕ
oper_log_granularity = 100_000

abbrev pub oper_log_min_value : ℕ
oper_log_min_value = 1

abbrev pub oper_log_max_value : ℕ
oper_log_max_value = 10_000_000_000_000

-- What the allocations give: whether each of them succeeds, and what the memory of the timers holds.
pub record Allocations : Type 0 where
  pub values_ok : Bool
  pub tmp_ok : Bool
  pub timers : Option (List Timer)
  pub copy_ok : Bool

-- What a report reads: the clock, the clock for each timer that is stopped, and what the local timer
-- held before it was initialized.
pub record Readings : Type 0 where
  pub now : Timespec
  pub stops : ℕ → Timespec
  pub garbage : Timer

-- The total of a report, and the value of the percentile when there were events.
pub record Report (d : Doubles) : Type 0 where
  pub total_time_ns : ℕ
  pub merged : Timer
  pub percentile_val : Option d.Double
  pub unfinished : ℕ

-- The loop of a forced shutdown over the copies of the timers, from the thread `i` on.
unfoldable pub stop_running : (ℕ → Timespec) → ℕ → List Timer → Option (ℕ × List Timer)
stop_running stops i [] = some (0, [])
stop_running stops i (t ∷ ts) = elim (stop_running stops (i + 1) ts) [
  | none ↦ none
  | some (n, us) ↦
      if is_running t
      then elim (stop (stops i) t) [ none ↦ none | some (w, u) ↦ some (add32 n 1, u ∷ us) ]
      else some (n, t ∷ us)
]

unfoldable pub close_timers :
    (forced : Bool) → (ℕ → Timespec) → List Timer → Option (ℕ × List Timer)
unfolding stop_running
close_timers forced stops ts = if forced then stop_running stops 0 ts else some (0, ts)

unfoldable pub merge_all : Timer → List Timer → Timer
merge_all t [] = t
merge_all t (u ∷ us) = merge_all (merge t u) us

-- The end of an event on its timer: the readings are those of the stop and of the query.
unfoldable pub stop_event : (now later : Timespec) → Timer → Option (ℕ × Timer)
stop_event now later t = elim (stop now t) [
  | none ↦ none
  | some (w, u) ↦ elim (value later u) [ none ↦ none | some (v, w', u') ↦ some (v, u') ]
]

module _ (d : Doubles) where
  open d use {Double, of_unsigned}

  unfoldable pub oper_handler_init : (percentile : ℤ) → Allocations → Option (OperLog d)
  oper_handler_init percentile a =
      let tmp = to_u32 percentile in
      let p =
        Percentile.init d a.values_ok a.tmp_ok oper_log_granularity (of_unsigned oper_log_min_value)
          (of_unsigned oper_log_max_value) in
      if ltb tmp 1 || ltb 100 tmp then none else elim p [
        | none ↦ none
        | some p ↦ elim a.timers [
          | none ↦ none
          | some ts ↦
              if a.copy_ok
              then some
                  (record { timers = map Timer.init ts; percentile = p; percentile_rank = tmp })
              else none
        ]
      ]

  unfoldable pub start_at : Timespec → ℕ → OperLog d → Timer → Option (OperLog d)
  start_at now thread_id o t = elim (start now t) [
    | none ↦ none
    | some (w, u) ↦ some (record o { timers = set o.timers thread_id u })
  ]

  unfoldable pub stop_at : (now later : Timespec) → ℕ → OperLog d → Timer → Option (ℕ × OperLog d)
  stop_at now later thread_id o t = elim (stop_event now later t) [
    | none ↦ none
    | some (v, u) ↦ some (v, record o { timers = set o.timers thread_id u })
  ]

  -- The state of the handler after the counters are taken and reset.
  abbrev pub fresh : Percentile d → OperLog d → OperLog d
  fresh p o = record o { timers = map Timer.reset o.timers; percentile = Percentile.reset d p }

  abbrev pub make_report : Readings → (total_time : ℕ) → Double → ℕ × List Timer → Report d
  make_report r total_time v (n, copies) =
      let t = merge_all (Timer.init r.garbage) copies in
      record {
        total_time_ns = total_time;
        merged = t;
        percentile_val = if ltb 0 t.events then some v else none;
        unfinished = n;
      }

  -- The report, `cumulative_timer2` after it and the handler after it.
  unfoldable pub print_global_stats :
      (forced : Bool)
      → Readings
      → (cumulative : Timer) → OperLog d
      → Option (Report d × Timer × OperLog d)
  print_global_stats forced r cumulative o = elim (split r.now cumulative) [
    | none ↦ none
    | some (total_time, w, c) ↦ elim (calculate d o.percentile (of_unsigned o.percentile_rank)) [
      | none ↦ none
      | some (v, p) ↦ elim (close_timers forced r.stops o.timers) [
        | none ↦ none
        | some copies ↦ some (make_report r total_time v copies, c, fresh p o)
      ]
    ]
  ]

-- The arguments are the type of double, and the conversion of long long to it.
module _ (d : Doubles) (of_signed : ℤ → d.Double) where
  -- The message up to where timers_mutex is released; the value is to be counted behind it.
  unfoldable pub oper_locked :
      (now later : Timespec) → OperMsg → OperLog d → Option (Option ℕ × OperLog d)
  unfolding start_at stop_at
  oper_locked now later msg o = elim (get_elem? o.timers msg.thread_id) [
    | none ↦ none
    | some t ↦ elim msg.action [
      | oper_start ↦ elim (start_at d now msg.thread_id o t) [
        | none ↦ none
        | some o' ↦ some (none, o')
      ]
      | oper_stop ↦ elim (stop_at d now later msg.thread_id o t) [
        | none ↦ none
        | some (v, o') ↦ some (some v, o')
      ]
    ]
  ]

  -- sb_percentile_update, which the handler calls without timers_mutex.
  unfoldable pub update_percentile : (value : ℕ) → OperLog d → Option (OperLog d)
  update_percentile v o = elim (Percentile.update d o.percentile (of_signed (signed64 v))) [
    | none ↦ none
    | some p ↦ some (record o { percentile = p })
  ]

  -- A whole call, where no other thread comes between.
  unfoldable pub oper_handler_process :
      (now later : Timespec) → OperMsg → OperLog d → Option (OperLog d)
  unfolding oper_locked update_percentile
  oper_handler_process now later msg o = elim (oper_locked now later msg o) [
    | none ↦ none
    | some (none, o') ↦ some o'
    | some (some v, o') ↦ update_percentile v o'
  ]
