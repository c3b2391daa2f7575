-- ===== src/Logger/Oper/Reports.antt =====
-- The report of the statistics, and the histories of events and reports.
use my_sqltutorials.Prelude.{
  ℕ, ◌+◌, ◌%◌, ◌<◌, ◌≡◌, inl, inr, refl, sym, arith, Bool, true, false, none, some, List, [], ◌∷◌,
  ◌++◌, map, ◌==◌, if◌then◌else◌, Bool-cases, length,
}
use my_sqltutorials.Prelude.{Option-cases, subst, append_assoc, append_nil}
use my_sqltutorials.Prelude.Words.{add32, u32_mod}
use my_sqltutorials.Timer.{Timespec, Timer, TimerState, Warning, stop, split, merge, is_running}
use my_sqltutorials.Timer.History.{
  Summarises, duration, stop-Summarises, reset-Summarises, init-Summarises,
}
use my_sqltutorials.Timer.Merge.{merge-Summarises}
use my_sqltutorials.Percentile.{Doubles, Percentile, calculate, index, rank, rank_index}
use my_sqltutorials.Percentile.Histogram.{Counts, InRange, reset-Counts}
use my_sqltutorials.Logger.Oper.{
  OperLog, Readings, Report, stop_running, close_timers, merge_all, fresh, make_report,
  print_global_stats,
}
use my_sqltutorials.Logger.Oper.Totals.{IsReady, Measures, concat, IsConsistent, stop-ready}
use my_sqltutorials.Timer
use my_sqltutorials.Percentile

merge_all-Summarises :
    (t : Timer) (xs : List ℕ) (ts : List Timer) (xss : List (List ℕ))
    → Summarises t xs
    → Measures ts xss
    → Summarises (merge_all t ts) (xs ++ concat xss)
unfolding merge_all
merge_all-Summarises t xs [] [] s m = subst (Summarises t) (sym (append_nil xs)) s
merge_all-Summarises t xs (u ∷ us) (ys ∷ yss) s m =
    subst (Summarises (merge_all (merge t u) us)) (append_assoc xs ys (concat yss))
      (merge_all-Summarises (merge t u) (xs ++ ys) us yss (merge-Summarises t u xs ys s m.1) m.2)
merge_all-Summarises t xs [] (ys ∷ yss) s m = absurd m
merge_all-Summarises t xs (u ∷ us) [] s m = absurd m

-- The durations when the running timers are stopped, at their readings of the clock.
abbrev pub closed : (ℕ → Timespec) → ℕ → List Timer → List (List ℕ) → List (List ℕ)
closed stops i [] xss = xss
closed stops i (t ∷ ts) [] = []
closed stops i (t ∷ ts) (xs ∷ xss) =
    (if is_running t then duration (stops i) t ∷ xs else xs) ∷ closed stops (i + 1) ts xss

abbrev pub number_running : List Timer → ℕ
number_running [] = 0
number_running (t ∷ ts) = (if is_running t then 1 else 0) + number_running ts

abbrev pub closed_by : Bool → (ℕ → Timespec) → List Timer → List (List ℕ) → List (List ℕ)
closed_by forced stops ts xss = if forced then closed stops 0 ts xss else xss

-- What the loop of a forced shutdown gives.
record Closes (stops : ℕ → Timespec) (i : ℕ) (ts : List Timer) (xss : List (List ℕ)) : Type 0 where
  unfinished : ℕ
  copies : List Timer
  gives : stop_running stops i ts ≡ some (unfinished, copies)
  measures : Measures copies (closed stops i ts xss)
  counts : unfinished ≡ number_running ts % u32_mod

stopped-ready : (u : Timer) → u.state ≡ TimerState.stopped → IsReady u
stopped-ready u e k = cc

stop_running-Closes :
    (stops : ℕ → Timespec) (i : ℕ) (ts : List Timer) (xss : List (List ℕ))
    → Measures ts xss
    → Closes stops i ts xss
unfolding stop_running
stop_running-Closes stops i [] [] m = record {
  unfinished = 0;
  copies = [];
  gives = refl;
  measures = tt;
  counts = refl;
}
stop_running-Closes stops i [] (xs ∷ xss) m = absurd m
stop_running-Closes stops i (t ∷ ts) [] m = absurd m
stop_running-Closes stops i (t ∷ ts) (xs ∷ xss) m =
    let rest : Closes stops (i + 1) ts xss = stop_running-Closes stops (i + 1) ts xss m.2 in
    let (w, (u, e)) = stop-ready (stops i) t m.0 in
    let (s, l, st) = stop-Summarises (stops i) t xs m.1 e in
    elim (Bool-cases (is_running t)) [
      | inl b ↦ record {
        unfinished = add32 rest.unfinished 1;
        copies = u ∷ rest.copies;
        gives = rw (rest.gives, stop_running) (rw b (rw e refl));
        measures = rw b (stopped-ready u st, s, rest.measures);
        counts = rw b (omega (arith, rest.counts));
      }
      | inr b ↦ record {
        unfinished = rest.unfinished;
        copies = t ∷ rest.copies;
        gives = rw (rest.gives, stop_running) (rw b refl);
        measures = rw b (m.0, m.1, rest.measures);
        counts = rw b (omega (arith, rest.counts));
      }
    ]

closes :
    (forced : Bool) (stops : ℕ → Timespec) (ts : List Timer) (xss : List (List ℕ))
    → Measures ts xss
    → (n : ℕ) × ((us : List Timer) × (close_timers forced stops ts ≡ some (n, us))
        × Measures us (closed_by forced stops ts xss)
        × (n ≡ (if forced then number_running ts % u32_mod else 0)))
unfolding close_timers
closes true stops ts xss m =
    let c : Closes stops 0 ts xss = stop_running-Closes stops 0 ts xss m in
    (c.unfinished, (c.copies, c.gives, c.measures, c.counts))
closes false stops ts xss m = (0, (ts, refl, m, refl))

split-none : (now : Timespec) (t : Timer) → split now t ≡ none → t.state ≡ TimerState.uninitialized
unfolding split
split-none now t e = ground arith

split-ready :
    (now : Timespec) (t : Timer)
    → IsReady t
    → (total : ℕ) × ((w : List Warning) × ((u : Timer) × (split now t ≡ some (total, w, u))))
split-ready now t r = elim (Option-cases (split now t)) [
  | inl e ↦ absurd (r (split-none now t e))
  | inr (a, e) ↦ (a.0, (a.1, (a.2, e)))
]

-- The counters and the durations after a reset.
abbrev pub none_of : List (List ℕ) → List (List ℕ)
none_of [] = []
none_of (xs ∷ xss) = [] ∷ none_of xss

pub concat-none_of : (xss : List (List ℕ)) → concat (none_of xss) ≡ []
concat-none_of [] = refl
concat-none_of (xs ∷ xss) = concat-none_of xss

reset-ready : (t : Timer) → IsReady t → IsReady (Timer.reset t)
unfolding Timer.reset
reset-ready t r = r

reset-Measures :
    (ts : List Timer) (xss : List (List ℕ))
    → Measures ts xss
    → Measures (map Timer.reset ts) (none_of xss)
reset-Measures [] [] m = tt
reset-Measures [] (xs ∷ xss) m = absurd m
reset-Measures (t ∷ ts) [] m = absurd m
reset-Measures (t ∷ ts) (xs ∷ xss) m =
    (reset-ready t m.0, reset-Summarises t, reset-Measures ts xss m.2)

rank_index-some : (n : ℕ) (vs : List ℕ) → 0 < length vs → (i : ℕ) × (rank_index n vs ≡ some i)
unfolding rank_index
rank_index-some n [] h = absurd (omega arith)
rank_index-some n (v ∷ vs) h = (_, refl)

module _ {d : Doubles} where
  calculates :
      (p : Percentile d) (x : d.Double) (ns : List ℕ)
      → Counts p ns
      → InRange p
      → (v : d.Double) × ((q : Percentile d) × (calculate d p x ≡ some (v, q))
          × InRange (Percentile.reset d q))
  unfolding calculate Percentile.reset index
  calculates p x ns c r =
      let filled : 0 < length p.values = omega (arith, r (d.of_unsigned 0), c.sized) in
      let (i, e) = rank_index-some (rank d p x) p.values filled in
      elim (Bool-cases (p.total == 0)) [
        | inl b ↦ (d.of_unsigned 0, (p, rw (b, calculate) refl, r))
        | inr b ↦ (
          d.exp (d.add (d.div (d.of_unsigned i) p.range_mult) p.range_deduct),
          (record p { tmp = p.values }, rw (b, calculate) (rw e refl), r),
        )
      ]

  -- After any history that keeps the timers and the histogram consistent, a report on a timer that
  -- has been initialized does not abort; its counters are the number (mod 2^64), the sum (mod 2^64),
  -- the minimum and the maximum of the durations that all threads have measured since the last
  -- report. In a forced shutdown the durations of the events that still run, up to now, are counted
  -- as well, and the report has the number of them (mod 2^32). Behind it the threads and the
  -- histogram have measured nothing.
  pub print_global_stats-Summarises :
      (forced : Bool) (r : Readings) (cumulative : Timer) (o : OperLog d) (xss : List (List ℕ))
      (ns : List ℕ)
      → IsConsistent o xss ns
      → IsReady cumulative
      → (rep : Report d) × ((cum : Timer) × ((o' : OperLog d) × (print_global_stats d forced r
                cumulative o
              ≡ some (rep, cum, o'))
            × Summarises rep.merged (concat (closed_by forced r.stops o.timers xss))
            × (rep.unfinished ≡ (if forced then number_running o.timers % u32_mod else 0))
            × IsConsistent o' (none_of xss) []))
  unfolding print_global_stats
  print_global_stats-Summarises forced r cumulative o xss ns c h =
      let (total, (w, (cum, e))) = split-ready r.now cumulative h in
      let (v, (p, e', b)) =
        calculates o.percentile (d.of_unsigned o.percentile_rank) ns c.counts c.in_range in
      let (n, (us, e'', m, k)) = closes forced r.stops o.timers xss c.measures in
      (
        make_report d r total v (n, us),
        (
          cum,
          (
            fresh d p o,
            rw (e, print_global_stats) (rw e' (rw e'' refl)),
            merge_all-Summarises (Timer.init r.garbage) [] us
                (closed_by forced r.stops o.timers xss) (init-Summarises r.garbage) m,
            k,
            record {
              measures = reset-Measures o.timers xss c.measures;
              counts = reset-Counts p;
              in_range = b;
            },
          ),
        ),
      )
