-- ===== src/Workloads/Shared/Requests.antt =====
-- How many requests the threads and cpu tests make.
use my_sqltutorials.Prelude.{
  ℕ, zero, suc, ◌+◌, ◌-◌, ◌%◌, ◌≤◌, ◌<◌, ◌≡◌, inl, inr, refl, ap, ◌∙◌, arith, Option, none, some,
  List, [], ◌∷◌, ltb, Bool-cases, min,
}
use my_sqltutorials.Prelude.Words.{u32_mod}
use my_sqltutorials.Workloads.Shared.{
  refused, lock_num, division_by_zero, threads_get_request, CpuRequests, CpuStep, passes, adds,
}

-- The locks that `calls` calls give, from any threads, one after the other; `none` is a fault.
abbrev pub grants : (max_requests thread_locks calls req_performed : ℕ) → Option (List ℕ)
grants m locks zero n = some []
grants m locks (suc calls) n = elim (threads_get_request m locks n) [
  | refused n' ↦ grants m locks calls n'
  | lock_num lock n' ↦ elim (grants m locks calls n') [ none ↦ none | some ls ↦ some (lock ∷ ls) ]
  | division_by_zero ↦ none
]

-- n % locks, (n + 1) % locks, ...
abbrev pub cycle : (thread_locks count n : ℕ) → List ℕ
cycle locks zero n = []
cycle locks (suc count) n = n % locks ∷ cycle locks count (n + 1)

grants-refused : (m locks calls n : ℕ) → 0 < m → m ≤ n → grants m locks calls n ≡ some []
unfolding threads_get_request
grants-refused m locks zero n h l = refl
grants-refused m locks (suc calls) n h l = ground (arith, grants-refused m locks calls n h l)

grants-cycle :
    (m locks calls n : ℕ)
    → 0 < locks
    → 0 < m
    → m < u32_mod
    → n ≤ m
    → grants m locks calls n ≡ some (cycle locks (min calls (m - n)) n)
unfolding threads_get_request
grants-cycle m locks zero n p h k l =
    let no_calls : 0 ≡ min 0 (m - n) = omega arith in ap (λ x. some (cycle locks x n)) no_calls
grants-cycle m locks (suc calls) n p h k l = elim (Bool-cases (ltb n m)) [
  | inl room ↦
      (let count : suc (min calls (m - (n + 1))) ≡ min (suc calls) (m - n) = ground arith in
        ground (arith, grants-cycle m locks calls (n + 1) p h k (ground arith))
        ∙ ap (λ x. some (cycle locks x n)) count)
  | inr full ↦
      (let none_left : 0 ≡ min (suc calls) (m - n) = ground arith in
        grants-refused m locks (suc calls) n h (ground arith)
        ∙ ap (λ x. some (cycle locks x n)) none_left)
]

-- With at least one lock and a limit below 2^32, any number of calls of threads_get_request from
-- the start makes the requests up to the limit and no more, and hands out the locks in turn.
pub grants_in_turn :
    (max_requests thread_locks calls : ℕ)
    → 0 < thread_locks
    → 0 < max_requests
    → max_requests < u32_mod
    → grants max_requests thread_locks calls 0
      ≡ some (cycle thread_locks (min calls max_requests) 0)
grants_in_turn m locks calls p h k =
    grants-cycle m locks calls 0 p h k (omega arith)
    ∙ ap (λ x. some (cycle locks (min calls x) 0)) (omega arith)

-- The states that a number of steps from the start reach.
pub data Reaches (max_requests threads : ℕ) : CpuRequests → Type 0 where
  start : Reaches max_requests threads (record { req_performed = 0; between = 0 })
  next :
      {s t : CpuRequests}
      → Reaches max_requests threads s
      → CpuStep max_requests threads s t
      → Reaches max_requests threads t

abbrev pub Bounded : ℕ → ℕ → CpuRequests → Type 0
Bounded m threads s = (s.req_performed + s.between ≤ m + threads - 1) × (s.between ≤ threads)

step-Bounded :
    (m threads : ℕ) {s t : CpuRequests}
    → Bounded m threads s
    → CpuStep m threads s t
    → Bounded m threads t
step-Bounded m threads h (passes n k l p) = (omega arith, omega arith)
step-Bounded m threads h (adds n k) = (omega arith, omega arith)

-- However the threads interleave, the cpu test exceeds `max_requests` by less than their number.
pub reaches-Bounded : (m threads : ℕ) (s : CpuRequests) → Reaches m threads s → Bounded m threads s
reaches-Bounded m threads s start = (omega arith, omega arith)
reaches-Bounded m threads t (next {s} r x) =
    step-Bounded m threads (reaches-Bounded m threads s r) x
