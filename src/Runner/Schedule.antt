-- ===== src/Runner/Schedule.antt =====
-- When the threads of the intermediate and the checkpoint reports wake up (report_thread_proc,
-- checkpoints_thread_proc). `current_test->ops.print_stats` is not NULL.
use my_sqltutorials.Prelude.{
  ℕ, zero, suc, ◌+◌, ◌*◌, ◌≤◌, ◌<◌, ◌≡◌, ◌⊎◌, inl, inr, refl, ap, ◌∙◌, arith, Bool, Option, none,
  some, List, [], ◌∷◌, ltb, leb, if◌then◌else◌, Bool-cases,
}
use my_sqltutorials.Prelude.Words.{add64, sub64, u64_mod}
use my_sqltutorials.Timer.{sec2ns}

-- The loop that looks for the next report behind `curr`, on fuel.
unfoldable pub next_report : (fuel prev interval curr : ℕ) → Option ℕ
next_report zero prev interval curr = none
next_report (suc fuel) prev interval curr =
    let rest = next_report fuel (add64 prev interval) interval curr in
    if leb (add64 prev interval) curr then rest else some (add64 prev interval)

-- One round of the thread: whether it prints, and what `prev_ns` and `pause_ns` are behind it.
pub record ReportRound : Type 0 where
  pub prints : Bool
  pub prev_ns : ℕ
  pub pause_ns : ℕ

unfoldable pub report_round : (report_interval prev interval curr : ℕ) → Option ReportRound
report_round report_interval prev interval curr = elim (next_report (suc curr) prev interval curr) [
  | none ↦ none
  | some next ↦
      some (record { prints = ltb 0 report_interval; prev_ns = next; pause_ns = sub64 next curr })
]

-- The pauses before the reports of the checkpoints that lie ahead, for the readings of the timer
-- from the checkpoint `i` on.
unfoldable pub checkpoint_pauses : (readings : ℕ → ℕ) → ℕ → List ℕ → List (ℕ × ℕ)
checkpoint_pauses readings i [] = []
checkpoint_pauses readings i (c ∷ cs) =
    let rest = checkpoint_pauses readings (i + 1) cs in
    if leb (sec2ns c) (readings i) then rest else (c, sub64 (sec2ns c) (readings i)) ∷ rest

mul_suc : (f i : ℕ) → suc f * i ≡ i + f * i
mul_suc f i = grind arith

-- A report is next at a grid point behind `curr`.
record IsNext (prev interval curr next : ℕ) : Type 0 where
  rounds : ℕ
  on_grid : next ≡ prev + suc rounds * interval
  ahead : curr < next
  nearest : (rounds ≡ 0) ⊎ (next ≤ curr + interval)

close :
    (rounds prev interval curr next : ℕ)
    → prev + interval ≤ curr
    → next ≡ prev + interval + suc rounds * interval
    → (rounds ≡ 0) ⊎ (next ≤ curr + interval)
    → next ≤ curr + interval
close rounds prev interval curr next h e (inl z) = grind (arith, mul_suc rounds interval)
close rounds prev interval curr next h e (inr n) = n

-- One round of the loop, where the sum does not wrap.
next_round :
    (fuel prev interval curr : ℕ)
    → prev + interval < u64_mod
    → next_report (suc fuel) prev interval curr ≡ (
        if leb (prev + interval) curr
        then next_report fuel (prev + interval) interval curr
        else some (prev + interval))
unfolding next_report
next_round fuel prev interval curr h =
    let same : add64 prev interval ≡ prev + interval = omega arith in
    ap (λ n. if leb n curr then next_report fuel n interval curr else some n) same

next_report-IsNext :
    (fuel prev interval curr : ℕ)
    → curr < prev + suc fuel * interval
    → prev + interval < u64_mod
    → curr + interval < u64_mod
    → (next : ℕ) × (next_report (suc fuel) prev interval curr ≡ some next)
      × IsNext prev interval curr next
next_report-IsNext zero prev interval curr h k l =
    let behind : curr < prev + interval = grind (arith, mul_suc 0 interval) in
    (
      prev + interval,
      next_round zero prev interval curr k ∙ ground arith,
      record {
        rounds = 0;
        on_grid = grind (arith, mul_suc 0 interval);
        ahead = behind;
        nearest = inl refl;
      },
    )
next_report-IsNext (suc fuel) prev interval curr h k l =
    elim (Bool-cases (leb (prev + interval) curr)) [
      | inl b ↦
          let passed : prev + interval ≤ curr = ground arith in
          let (next, e, n) =
            next_report-IsNext fuel (prev + interval) interval curr
              (omega (arith, mul_suc (suc fuel) interval)) (omega arith) l in
          (
            next,
            next_round (suc fuel) prev interval curr k ∙ rw b e,
            record {
              rounds = suc n.rounds;
              on_grid = omega (arith, n.on_grid, mul_suc (suc n.rounds) interval);
              ahead = n.ahead;
              nearest = inr (close n.rounds prev interval curr next passed n.on_grid n.nearest);
            },
          )
      | inr b ↦ (
        prev + interval,
        next_round (suc fuel) prev interval curr k ∙ rw b refl,
        record {
          rounds = 0;
          on_grid = grind (arith, mul_suc 0 interval);
          ahead = ground arith;
          nearest = inl refl;
        },
      )
    ]

before_end :
    (prev interval curr next : ℕ)
    → IsNext prev interval curr next
    → prev + interval < u64_mod
    → curr + interval < u64_mod
    → next < u64_mod
before_end prev interval curr next n k l = elim n.nearest [
  | inl z ↦ grind (arith, mul_suc n.rounds interval, n.on_grid)
  | inr m ↦ omega arith
]

enough : (curr prev interval : ℕ) → 0 < interval → curr < prev + suc curr * interval
enough curr prev interval h = grind arith

-- With an interval above zero, and readings that are more than an interval below 2^64, the loop ends,
-- and the next report is at a time behind the reading of the timer that is a whole number of
-- intervals, at least one, after the last; no earlier such time lies behind the reading; and the
-- pause leads from the reading to it.
pub report_round-IsNext :
    (report_interval prev interval curr : ℕ)
    → 0 < interval
    → prev + interval < u64_mod
    → curr + interval < u64_mod
    → (r : ReportRound) × (report_round report_interval prev interval curr ≡ some r)
      × (curr + r.pause_ns ≡ r.prev_ns)
      × (0 < r.pause_ns)
      × ((k : ℕ) × (r.prev_ns ≡ prev + suc k * interval)
          × ((k ≡ 0) ⊎ (r.prev_ns ≤ curr + interval)))
unfolding report_round
report_round-IsNext report_interval prev interval curr h k l =
    let (next, e, n) =
      next_report-IsNext curr prev interval curr (enough curr prev interval h) k l in
    let far : next < u64_mod = before_end prev interval curr next n k l in
    (
      record { prints = ltb 0 report_interval; prev_ns = next; pause_ns = sub64 next curr },
      rw (e, report_round) refl,
      omega (arith, n.ahead),
      omega (arith, n.ahead),
      (n.rounds, n.on_grid, n.nearest),
    )
