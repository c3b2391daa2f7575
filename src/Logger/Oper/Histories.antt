-- ===== src/Logger/Oper/Histories.antt =====
-- Histories of events and reports of the threads, from oper_handler_init on.
use my_sqltutorials.Prelude.{
  ℕ, suc, ◌+◌, ◌%◌, ◌<◌, ◌≡◌, inl, inr, refl, ap, sym, ◌∙◌, arith, Bool, true, false, some, List,
  [], ◌∷◌, map, length, length-append,
}
use my_sqltutorials.Prelude.{subst, Option-cases, length-set}
use my_sqltutorials.Prelude.Int.{ℤ}
use my_sqltutorials.Prelude.Words.{u64_mod, signed64}
use my_sqltutorials.Timer.{Timespec, Timer, TimerState}
use my_sqltutorials.Timer.History.{init-Summarises, duration}
use my_sqltutorials.Percentile.{Doubles, Percentile, index}
use my_sqltutorials.Percentile.Histogram.{Counts, InRange, init-Counts}
use my_sqltutorials.Logger.Oper.{
  OperAction, OperLog, Allocations, Readings, oper_handler_init, oper_log_granularity,
  oper_log_min_value, oper_log_max_value,
}
use my_sqltutorials.Logger.Oper.Steps.{
  OperCall, message, updates, reports, take_at, length-take_at, Shared, run_call, run_calls,
}
use my_sqltutorials.Logger.Oper.Totals.{
  IsReady, Measures, concat, measured_by, IsConsistent, length-Measures, oper_start-IsConsistent,
  oper_stop-IsConsistent, update_percentile-IsConsistent, length-measured_by,
}
use my_sqltutorials.Logger.Oper.Reports.{none_of, concat-none_of, print_global_stats-Summarises}
use my_sqltutorials.Timer
use my_sqltutorials.Percentile

-- The threads are those of the run, and reports come after run_test has started the timer.
abbrev pub AreValid : ℕ → List OperCall → Type 0
AreValid n [] = Unit {0}
AreValid n (message now later m ∷ cs) = (m.thread_id < n) × AreValid n cs
AreValid n (updates k ∷ cs) = AreValid n cs
AreValid n (reports forced r cumulative ∷ cs) = IsReady cumulative × AreValid n cs

abbrev pub sum_events : List Timer → ℕ
sum_events [] = 0
sum_events (t ∷ ts) = t.events + sum_events ts

sum_events-Measures :
    (ts : List Timer) (xss : List (List ℕ))
    → Measures ts xss
    → sum_events ts % u64_mod ≡ length (concat xss) % u64_mod
sum_events-Measures [] [] m = refl
sum_events-Measures [] (xs ∷ xss) m = absurd m
sum_events-Measures (t ∷ ts) [] m = absurd m
sum_events-Measures (t ∷ ts) (xs ∷ xss) m =
    omega (arith, length-append xs (concat xss), m.1.counted, sum_events-Measures ts xss m.2)

init-ready : (t : Timer) → IsReady (Timer.init t)
unfolding Timer.init
init-ready t e = cc

start-Measures :
    (ts : List Timer) → (xss : List (List ℕ)) × Measures (map Timer.init ts) xss × (concat xss ≡ [])
start-Measures [] = ([], tt, refl)
start-Measures (t ∷ ts) =
    let (xss, m, e) = start-Measures ts in ([] ∷ xss, (init-ready t, init-Summarises t, m), e)

length-map : (f : Timer → Timer) (ts : List Timer) → length (map f ts) ≡ length ts
length-map f [] = refl
length-map f (t ∷ ts) = ap suc (length-map f ts)

length-none_of : (xss : List (List ℕ)) → length (none_of xss) ≡ length xss
length-none_of [] = refl
length-none_of (xs ∷ xss) = ap suc (length-none_of xss)

some_inj : {A : Type 0} {x y : A} → some x ≡ some y → x ≡ y
some_inj e = cc

module _ {d : Doubles} where
  -- A state that stands for some durations, of a number of threads.
  record IsCounted (n : ℕ) (s : Shared d) : Type 0 where
    durations : List (List ℕ)
    buckets : List ℕ
    consistent : IsConsistent s.log durations buckets
    as_many : length buckets + length s.pending ≡ length (concat durations) + s.carried
    threads : length durations ≡ n

  message-IsCounted :
      (of_signed : ℤ → d.Double) (n : ℕ) (now later : Timespec) (action : OperAction) (i : ℕ)
      (s : Shared d)
      → IsCounted n s
      → i < n
      → (s' : Shared d) × (run_call of_signed
            (message now later (record { action = action; thread_id = i }))
            s
          ≡ some s')
        × IsCounted n s'
  unfolding run_call
  message-IsCounted of_signed n now later OperAction.oper_start i s c l =
      let h : i < length s.log.timers =
        omega (arith, length-Measures s.log.timers c.durations c.consistent.measures, c.threads) in
      let (o', e, k) =
        oper_start-IsConsistent of_signed s.log c.durations c.buckets c.consistent now later i h in
      (
        record s { log = o' },
        rw (e, run_call) refl,
        record {
          durations = c.durations;
          buckets = c.buckets;
          consistent = k;
          as_many = c.as_many;
          threads = c.threads;
        },
      )
  message-IsCounted of_signed n now later OperAction.oper_stop i s c l =
      let h : i < length s.log.timers =
        omega (arith, length-Measures s.log.timers c.durations c.consistent.measures, c.threads) in
      let (t, g, (o', e, k)) =
        oper_stop-IsConsistent of_signed s.log c.durations c.buckets c.consistent now later i h in
      let more = length-measured_by c.durations i (duration now t) (omega (arith, c.threads)) in
      (
        record s { log = o'; pending = duration now t ∷ s.pending },
        rw (e, run_call) refl,
        record {
          durations = measured_by i (duration now t) c.durations;
          buckets = c.buckets;
          consistent = k;
          as_many = omega (arith, c.as_many, more);
          threads = length-set c.durations i _ ∙ c.threads;
        },
      )

  updates-IsCounted :
      (of_signed : ℤ → d.Double) (n k : ℕ) (s : Shared d)
      → IsCounted n s
      → (s' : Shared d) × (run_call of_signed (updates k) s ≡ some s') × IsCounted n s'
  unfolding run_call
  updates-IsCounted of_signed n k s c = elim (Option-cases (take_at k s.pending)) [
    | inl p ↦ (s, rw (p, run_call) refl, c)
    | inr ((v, vs), p) ↦
        let (o', e, b) =
          update_percentile-IsConsistent of_signed s.log c.durations c.buckets v c.consistent in
        (
          record s { log = o'; pending = vs },
          rw (p, run_call) (rw e refl),
          record {
            durations = c.durations;
            buckets = index d s.log.percentile (of_signed (signed64 v)) ∷ c.buckets;
            consistent = b;
            as_many = omega (arith, c.as_many, length-take_at k s.pending vs v p);
            threads = c.threads;
          },
        )
  ]

  reports-IsCounted :
      (of_signed : ℤ → d.Double) (n : ℕ) (forced : Bool) (r : Readings) (cumulative : Timer)
      (s : Shared d)
      → IsCounted n s
      → IsReady cumulative
      → (s' : Shared d) × (run_call of_signed (reports forced r cumulative) s ≡ some s')
        × IsCounted n s'
  unfolding run_call
  reports-IsCounted of_signed n forced r cumulative s c h =
      let (rep, (cum, (o', e, m, k, i))) =
        print_global_stats-Summarises forced r cumulative s.log c.durations c.buckets c.consistent
          h in
      (
        record s { log = o'; carried = length s.pending },
        rw (e, run_call) refl,
        record {
          durations = none_of c.durations;
          buckets = [];
          consistent = i;
          as_many = omega (arith, ap length (concat-none_of c.durations));
          threads = length-none_of c.durations ∙ c.threads;
        },
      )

  run_call-IsCounted :
      (of_signed : ℤ → d.Double) (n : ℕ) (call : OperCall) (cs : List OperCall) (s : Shared d)
      → IsCounted n s
      → AreValid n (call ∷ cs)
      → (s' : Shared d) × (run_call of_signed call s ≡ some s') × IsCounted n s' × AreValid n cs
  run_call-IsCounted of_signed n (message now later m) cs s c v =
      let (s', e, c') = message-IsCounted of_signed n now later m.action m.thread_id s c v.0 in
      (s', e, c', v.1)
  run_call-IsCounted of_signed n (updates k) cs s c v =
      let (s', e, c') = updates-IsCounted of_signed n k s c in (s', e, c', v)
  run_call-IsCounted of_signed n (reports forced r cumulative) cs s c v =
      let (s', e, c') = reports-IsCounted of_signed n forced r cumulative s c v.0 in
      (s', e, c', v.1)

  run_calls-IsCounted :
      (of_signed : ℤ → d.Double) (n : ℕ) (cs : List OperCall) (s : Shared d)
      → IsCounted n s
      → AreValid n cs
      → (s' : Shared d) × (run_calls of_signed s cs ≡ some s') × IsCounted n s'
  unfolding run_calls
  run_calls-IsCounted of_signed n [] s c v = (s, refl, c)
  run_calls-IsCounted of_signed n (call ∷ cs) s c v =
      let (s', e, c', v') = run_call-IsCounted of_signed n call cs s c v in
      let (s'', e', c'') = run_calls-IsCounted of_signed n cs s' c' v' in
      (s'', rw (e, run_calls) e', c'')

  -- The state behind oper_handler_init.
  abbrev pub from_init : OperLog d → Shared d
  from_init o = record { log = o; pending = []; carried = 0 }

  init-some :
      (values_ok tmp_ok : Bool) (size : ℕ) (lo hi : d.Double) (p : Percentile d)
      → Percentile.init d values_ok tmp_ok size lo hi ≡ some p
      → Counts p []
  unfolding Percentile.init
  init-some true true size lo hi p e =
      let (q, e', c, s) = init-Counts {d = d} size lo hi in
      subst (λ x. Counts x []) (some_inj (sym e' ∙ e)) c
  init-some true false size lo hi p e = cc
  init-some false tmp_ok size lo hi p e = cc

  init-OperLog :
      (percentile : ℤ) (a : Allocations) (ts : List Timer) (o : OperLog d)
      → a.timers ≡ some ts
      → oper_handler_init d percentile a ≡ some o
      → (o.timers ≡ map Timer.init ts) × Counts o.percentile []
  unfolding oper_handler_init
  init-OperLog percentile a ts o h e =
      let p =
        Percentile.init d a.values_ok a.tmp_ok oper_log_granularity
          (d.of_unsigned oper_log_min_value) (d.of_unsigned oper_log_max_value) in
      elim (Option-cases p) [
        | inl k ↦ ground arith
        | inr (q, k) ↦ ground (
          arith,
          init-some a.values_ok a.tmp_ok oper_log_granularity (d.of_unsigned oper_log_min_value)
              (d.of_unsigned oper_log_max_value) q k,
        )
      ]

  init-IsCounted :
      (percentile : ℤ) (a : Allocations) (ts : List Timer) (o : OperLog d)
      → a.timers ≡ some ts
      → oper_handler_init d percentile a ≡ some o
      → InRange o.percentile
      → IsCounted (length ts) (from_init o)
  init-IsCounted percentile a ts o h e r =
      let (xss, m, nothing) = start-Measures ts in
      let (same, c) = init-OperLog percentile a ts o h e in
      let m' : Measures o.timers xss = subst (λ l. Measures l xss) (sym same) m in
      record {
        durations = xss;
        buckets = [];
        consistent = record { measures = m'; counts = c; in_range = r };
        as_many = omega (arith, ap length nothing);
        threads = sym (length-Measures (map Timer.init ts) xss m) ∙ length-map Timer.init ts;
      }

  -- From oper_handler_init on, whatever the order of the steps of the threads that there are and
  -- of the reports, where another thread or a report may come between the stop of a timer and the
  -- update of the histogram: nothing aborts or leaves the bounds of an array, where the scale of
  -- the histogram has a bucket for every value; and at the end the values in the histogram and
  -- those still to be counted are as many as the events of all timers and the values that were
  -- still to be counted at the last report (mod 2^64).
  pub total-sum_events :
      (of_signed : ℤ → d.Double) (percentile : ℤ) (a : Allocations) (ts : List Timer)
      (o : OperLog d) (cs : List OperCall)
      → a.timers ≡ some ts
      → oper_handler_init d percentile a ≡ some o
      → InRange o.percentile
      → AreValid (length ts) cs
      → (s : Shared d) × (run_calls of_signed (from_init o) cs ≡ some s)
        × ((s.log.percentile.total + length s.pending) % u64_mod
            ≡ (sum_events s.log.timers + s.carried) % u64_mod)
  total-sum_events of_signed percentile a ts o cs h e r v =
      let (s, e', c) =
        run_calls-IsCounted of_signed (length ts) cs (from_init o)
          (init-IsCounted percentile a ts o h e r) v in
      (
        s,
        e',
        omega (
          arith,
          c.consistent.counts.total_counted,
          c.as_many,
          sum_events-Measures s.log.timers c.durations c.consistent.measures,
        ),
      )
