-- ===== src/Logger/Oper/Totals.antt =====
-- The counters of the threads' timers, and of the histogram, stand for the same measured events.
use my_sqltutorials.Prelude.{
  subst, ℕ, zero, suc, ◌<◌, ◌≡◌, ◌≢◌, refl, ap, sym, ◌∙◌, arith, none, some, List, [], ◌∷◌, ◌++◌,
  length, get_elem?, set, length-append, get_or,
}
use my_sqltutorials.Prelude.Int.{ℤ}
use my_sqltutorials.Prelude.Words.{signed64}
use my_sqltutorials.Timer.{Timespec, Timer, TimerState, Warning, start, stop, finish, value}
use my_sqltutorials.Timer.History.{Summarises, duration, stop-Summarises}
use my_sqltutorials.Percentile.{Doubles, Percentile, calculate, index, update}
use my_sqltutorials.Percentile.Histogram.{Counts, InRange, update-Counts, index-SameScale}
use my_sqltutorials.Logger.Oper.{
  OperAction, OperLog, stop_event, start_at, stop_at, oper_locked, update_percentile,
}
use my_sqltutorials.Percentile

abbrev pub IsReady : Timer → Type 0
IsReady t = t.state ≢ TimerState.uninitialized

-- Each timer is ready, and summarises the durations that belong to it.
abbrev pub Measures : List Timer → List (List ℕ) → Type 0
Measures [] [] = Unit {0}
Measures (t ∷ ts) (xs ∷ xss) = IsReady t × Summarises t xs × Measures ts xss
Measures _ _ = ⊥

abbrev pub concat : List (List ℕ) → List ℕ
concat [] = []
concat (xs ∷ xss) = xs ++ concat xss

pub length-Measures :
    (ts : List Timer) (xss : List (List ℕ)) → Measures ts xss → length ts ≡ length xss
length-Measures [] [] h = refl
length-Measures (t ∷ ts) (xs ∷ xss) h = ap suc (length-Measures ts xss h.2)
length-Measures [] (xs ∷ xss) h = absurd h
length-Measures (t ∷ ts) [] h = absurd h

pub set-Measures :
    (ts : List Timer) (xss : List (List ℕ)) (i : ℕ) (u : Timer) (ys : List ℕ)
    → Measures ts xss
    → IsReady u
    → Summarises u ys
    → Measures (set ts i u) (set xss i ys)
set-Measures [] [] i u ys h r s = tt
set-Measures (t ∷ ts) (xs ∷ xss) zero u ys h r s = (r, s, h.2)
set-Measures (t ∷ ts) (xs ∷ xss) (suc i) u ys h r s = (h.0, h.1, set-Measures ts xss i u ys h.2 r s)
set-Measures [] (xs ∷ xss) i u ys h r s = absurd h
set-Measures (t ∷ ts) [] i u ys h r s = absurd h

-- The timer of a thread, with its durations.
pub timer_at :
    (ts : List Timer) (xss : List (List ℕ)) (i : ℕ)
    → Measures ts xss
    → i < length ts
    → (t : Timer) × (get_elem? ts i ≡ some t) × IsReady t × Summarises t (get_or xss i [])
timer_at [] xss i h l = absurd (omega arith)
timer_at (t ∷ ts) [] i h l = absurd h
timer_at (t ∷ ts) (xs ∷ xss) zero h l = (t, refl, h.0, h.1)
timer_at (t ∷ ts) (xs ∷ xss) (suc i) h l = timer_at ts xss i h.2 (omega arith)

-- The durations of all threads after one more of a thread.
abbrev pub measured_by : ℕ → ℕ → List (List ℕ) → List (List ℕ)
measured_by i x xss = set xss i (x ∷ get_or xss i [])

pub length-measured_by :
    (xss : List (List ℕ)) (i x : ℕ)
    → i < length xss
    → length (concat (measured_by i x xss)) ≡ suc (length (concat xss))
length-measured_by [] i x h = absurd (omega arith)
length-measured_by (xs ∷ xss) zero x h = refl
length-measured_by (xs ∷ xss) (suc i) x h = omega (
  arith,
  length-append xs (concat (measured_by i x xss)),
  length-append xs (concat xss),
  length-measured_by xss i x (omega arith),
)

start-ready :
    (now : Timespec) (t : Timer) (xs : List ℕ)
    → IsReady t
    → Summarises t xs
    → (w : List Warning) × ((u : Timer) × (start now t ≡ some (w, u)) × IsReady u × Summarises u xs)
unfolding start
start-ready now t xs r s = (
  elim t.state [ TimerState.running ↦ Warning.already_started ∷ [] | _ ↦ [] ],
  (
    record t { time_start = now; time_split = now; state = TimerState.running },
    ground arith,
    (λ e. cc),
    record { counted = s.counted; summed = s.summed; shortest = s.shortest; longest = s.longest },
  ),
)

pub stop-ready :
    (now : Timespec) (t : Timer)
    → IsReady t
    → (w : List Warning) × ((u : Timer) × (stop now t ≡ some (w, u)))
unfolding stop
stop-ready now t r = (
  elim t.state [
    | TimerState.initialized ↦ Warning.never_started ∷ []
    | TimerState.stopped ↦ Warning.already_stopped ∷ []
    | _ ↦ []
  ],
  (finish now t, ground arith),
)

value-stopped :
    (later : Timespec) (u : Timer)
    → u.state ≡ TimerState.stopped
    → value later u ≡ some (u.elapsed, [], u)
unfolding value
value-stopped later u e = ground arith

set_same : {A : Type 0} (xs : List A) (i : ℕ) (a : A) → set xs i (get_or xs i a) ≡ xs
set_same [] i a = refl
set_same (x ∷ xs) zero a = refl
set_same (x ∷ xs) (suc i) a = ap (λ l. x ∷ l) (set_same xs i a)

stopped_not : TimerState.stopped ≢ TimerState.uninitialized
stopped_not e = cc

pub stop_event-ready :
    (now later : Timespec) (t : Timer) (xs : List ℕ)
    → IsReady t
    → Summarises t xs
    → (u : Timer) × (stop_event now later t ≡ some (duration now t, u))
      × IsReady u
      × Summarises u (duration now t ∷ xs)
unfolding stop_event
stop_event-ready now later t xs r s =
    let (w, (u, e)) = stop-ready now t r in
    let (s', l, st) = stop-Summarises now t xs s e in
    (
      u,
      rw (e, stop_event) (rw (value-stopped later u st) (ap (λ v. some (v, u)) l)),
      (λ k. absurd (stopped_not (sym st ∙ k))),
      s',
    )

module _ {d : Doubles} where
  -- The timers and the histogram stand for the durations `xss` of the threads.
  pub record IsConsistent (o : OperLog d) (xss : List (List ℕ)) (ns : List ℕ) : Type 0 where
    pub measures : Measures o.timers xss
    pub counts : Counts o.percentile ns
    pub in_range : InRange o.percentile

  -- The percentile after one more value of the histogram.
  updated :
      (p : Percentile d) (v : d.Double) (ns : List ℕ)
      → Counts p ns
      → InRange p
      → (q : Percentile d) × (Percentile.update d p v ≡ some q)
        × Counts q (index d p v ∷ ns)
        × InRange q
  updated p v ns c r =
      let (q, e, c', s) = update-Counts p v ns c (r v) in
      (q, e, c', λ w. rw (index-SameScale w s, s.same_size) (r w))

  module _ (of_signed : ℤ → d.Double) (o : OperLog d) (xss : List (List ℕ)) (ns : List ℕ)
      (c : IsConsistent o xss ns) (now later : Timespec) (i : ℕ) (l : i < length o.timers) where
    -- A message that starts an event, for a thread that there is, is processed without an abort and
    -- measures nothing.
    pub oper_start-IsConsistent :
        (o' : OperLog d) × (oper_locked d of_signed now later
            (record { action = OperAction.oper_start; thread_id = i })
            o
          ≡ some (none, o'))
        × IsConsistent o' xss ns
    unfolding oper_locked start_at
    oper_start-IsConsistent =
        let (t, e, r, s) = timer_at o.timers xss i c.measures l in
        let (w, (u, e', r', s')) = start-ready now t (get_or xss i []) r s in
        (
          record o { timers = set o.timers i u },
          rw (e, oper_locked) (rw (e', start_at) refl),
          record {
            measures =
                subst (Measures (set o.timers i u)) (set_same xss i [])
                  (set-Measures o.timers xss i u (get_or xss i []) c.measures r' s');
            counts = c.counts;
            in_range = c.in_range;
          },
        )

    -- stop
    pub oper_stop-IsConsistent :
        (t : Timer) × (get_elem? o.timers i ≡ some t)
        × ((o' : OperLog d) × (oper_locked d of_signed now later
                (record { action = OperAction.oper_stop; thread_id = i })
                o
              ≡ some (some (duration now t), o'))
            × IsConsistent o' (measured_by i (duration now t) xss) ns)
    unfolding oper_locked stop_at
    oper_stop-IsConsistent =
        let (t, e, r, s) = timer_at o.timers xss i c.measures l in
        let (u, e', r', s') = stop_event-ready now later t (get_or xss i []) r s in
        (
          t,
          e,
          (
            record o { timers = set o.timers i u },
            rw (e, oper_locked) (rw (e', stop_at) refl),
            record {
              measures =
                  set-Measures o.timers xss i u (duration now t ∷ get_or xss i []) c.measures r' s';
              counts = c.counts;
              in_range = c.in_range;
            },
          ),
        )

  -- One value more in the histogram.
  pub update_percentile-IsConsistent :
      (of_signed : ℤ → d.Double) (o : OperLog d) (xss : List (List ℕ)) (ns : List ℕ) (v : ℕ)
      → IsConsistent o xss ns
      → (o' : OperLog d) × (update_percentile d of_signed v o ≡ some o')
        × IsConsistent o' xss (index d o.percentile (of_signed (signed64 v)) ∷ ns)
  unfolding update_percentile
  update_percentile-IsConsistent of_signed o xss ns v c =
      let (q, e, k, b) = updated o.percentile (of_signed (signed64 v)) ns c.counts c.in_range in
      (
        record o { percentile = q },
        rw (e, update_percentile) refl,
        record { measures = c.measures; counts = k; in_range = b },
      )
