-- ===== src/Logger/Oper/Steps.antt =====
-- The steps of the threads on the state that they share: messages up to where the mutex is released,
-- updates of the histogram, and reports.
use my_sqltutorials.Prelude.{
  ℕ, zero, suc, ◌≡◌, inl, inr, ap, arith, Bool, Option, none, some, List, [], ◌∷◌, length,
}
use my_sqltutorials.Prelude.{get_elem?, Option-cases}
use my_sqltutorials.Prelude.Int.{ℤ}
use my_sqltutorials.Timer.{Timespec, Timer}
use my_sqltutorials.Percentile.{Doubles}
use my_sqltutorials.Logger.Oper.{
  OperAction, OperMsg, OperLog, Readings, oper_handler_process, stop_at, oper_locked,
  update_percentile, print_global_stats,
}

-- A step of a thread: a message with the two readings of the clock, up to where it releases
-- timers_mutex; the update of the histogram with the k-th of the values that were measured and not yet
-- counted; or a report.
pub data OperCall : Type 0 where
  message : (now later : Timespec) → OperMsg → OperCall
  updates : (k : ℕ) → OperCall
  reports : (forced : Bool) → Readings → (cumulative : Timer) → OperCall

unfoldable pub take_at : ℕ → List ℕ → Option (ℕ × List ℕ)
take_at k [] = none
take_at zero (v ∷ vs) = some (v, vs)
take_at (suc k) (v ∷ vs) = elim (take_at k vs) [ none ↦ none | some (w, ws) ↦ some (w, v ∷ ws) ]

pub length-take_at :
    (k : ℕ) (vs ws : List ℕ) (w : ℕ) → take_at k vs ≡ some (w, ws) → length vs ≡ suc (length ws)
unfolding take_at
length-take_at k [] ws w e = absurd (ground arith)
length-take_at zero (v ∷ vs) ws w e = ap suc (ground arith)
length-take_at (suc k) (v ∷ vs) ws w e = elim (Option-cases (take_at k vs)) [
  | inl p ↦ absurd (ground arith)
  | inr ((x, xs), p) ↦
      let same : ws ≡ v ∷ xs = ground arith in
      omega (arith, length-take_at k vs xs x p, ap length same)
]

-- The handler, the values that were measured and not yet counted, and how many these were at the
-- last report.
pub record Shared (d : Doubles) : Type 0 where
  pub log : OperLog d
  pub pending : List ℕ
  pub carried : ℕ

module _ {d : Doubles} where
  -- The values behind a message.
  abbrev adds : Option ℕ → OperLog d → Shared d → Shared d
  adds none o s = record s { log = o }
  adds (some v) o s = record s { log = o; pending = v ∷ s.pending }

  unfoldable pub run_call : (ℤ → d.Double) → OperCall → Shared d → Option (Shared d)
  unfolding take_at
  run_call of_signed (message now later m) s = elim (oper_locked d of_signed now later m s.log) [
    | none ↦ none
    | some (v, o) ↦ some (adds v o s)
  ]
  run_call of_signed (updates k) s = elim (take_at k s.pending) [
    | none ↦ some s
    | some (v, vs) ↦ elim (update_percentile d of_signed v s.log) [
      | none ↦ none
      | some o ↦ some (record s { log = o; pending = vs })
    ]
  ]
  run_call of_signed (reports forced r cumulative) s =
      elim (print_global_stats d forced r cumulative s.log) [
        | none ↦ none
        | some (rep, cum, o) ↦ some (record s { log = o; carried = length s.pending })
      ]

  unfoldable pub run_calls : (ℤ → d.Double) → Shared d → List OperCall → Option (Shared d)
  unfolding run_call
  run_calls of_signed s [] = some s
  run_calls of_signed s (c ∷ cs) = elim (run_call of_signed c s) [
    | none ↦ none
    | some s' ↦ run_calls of_signed s' cs
  ]

  abbrev map_log : Option (Shared d) → Option (OperLog d)
  map_log none = none
  map_log (some s) = some s.log

  -- A call of the handler that stops an event, where no other step comes between, is the message and
  -- the update with its value.
  stop_steps :
      (of_signed : ℤ → d.Double) (now later : Timespec) (i : ℕ) (s : Shared d)
      → let m : OperMsg = record { action = OperAction.oper_stop; thread_id = i } in
        map_log (run_calls of_signed s (message now later m ∷ updates 0 ∷ []))
        ≡ oper_handler_process d of_signed now later m s.log
  unfolding run_calls run_call oper_locked oper_handler_process take_at
  stop_steps of_signed now later i s = elim (Option-cases (get_elem? s.log.timers i)) [
    | inl e ↦ ground (arith, e)
    | inr (t, e) ↦ elim (Option-cases (stop_at d now later i s.log t)) [
      | inl f ↦ ground (arith, e, f)
      | inr ((v, o), f) ↦ elim (Option-cases (update_percentile d of_signed v o)) [
        | inl g ↦ ground (arith, e, f, g)
        | inr (o', g) ↦ ground (arith, e, f, g)
      ]
    ]
  ]
