-- ===== src/Workloads/Shared.antt =====
-- tests/threads/sb_threads.c and tests/mutex/sb_mutex.c.
pub mod Requests
pub mod Rounds
use my_sqltutorials.Prelude.{
  ℕ, zero, suc, ◌+◌, ◌-◌, ◌*◌, ◌/◌, ◌%◌, ◌^◌, ◌≤◌, ◌<◌, ◌≡◌, ◌≢◌, ◌↔◌, ◌⊎◌, inl, inr, refl, ap, sym,
  ◌∙◌, arith, Bool, true, false, not, Option, none, some, List, [], ◌∷◌, ◌++◌, map, ltb, leb, ◌==◌,
  ◌&&◌, ◌||◌, if◌then◌else◌, Bool-cases, length, get_elem?, set, take, drop, replicate,
  length-append, get_elem?-set_ne, get_elem?-set_self, foldr, Chars,
}
use my_sqltutorials.Prelude.Words.{u32_mod, add32, sub32}

-- threads_get_request, with its counter `req_performed`; `division_by_zero` is a zero `thread_locks`.
pub data Granted : Type 0 where
  refused : ℕ → Granted
  lock_num : (lock : ℕ) → (req_performed : ℕ) → Granted
  division_by_zero : Granted

unfoldable pub threads_get_request : (max_requests thread_locks req_performed : ℕ) → Granted
threads_get_request max_requests thread_locks req_performed =
    if ltb 0 max_requests && leb max_requests req_performed
    then refused req_performed
    else if thread_locks == 0
    then division_by_zero
    else lock_num (req_performed % thread_locks) (add32 req_performed 1)

-- cpu_get_request reads the counter without the mutex: a thread passes the test, and adds one later.
-- A state is the counter and the number of threads between the two. `max_requests` is a limit (not
-- zero), and with the number of threads it stays below 2^32, so that the counter does not wrap.
pub record CpuRequests : Type 0 where
  pub req_performed : ℕ
  pub between : ℕ

pub data CpuStep (max_requests threads : ℕ) : CpuRequests → CpuRequests → Type 0 where
  passes :
      (n k : ℕ)
      → n < max_requests
      → k < threads
      → CpuStep max_requests threads
          (record { req_performed = n; between = k })
          (record { req_performed = n; between = k + 1 })
  adds :
      (n k : ℕ)
      → CpuStep max_requests threads
          (record { req_performed = n; between = k + 1 })
          (record { req_performed = n + 1; between = k })

-- The do-while loop of mutex_execute_request from the round `i` on: the locks taken, and the last
-- values of `global_var`. `none` is fuel that was not enough; `mutex_num` is not zero.
unfoldable pub lock_rounds :
    (mutex_num : ℕ) (rand : ℕ → ℕ) (fuel i nlocks global_var : ℕ) → Option (List ℕ × ℕ)
lock_rounds mutex_num rand zero i nlocks global_var = none
lock_rounds mutex_num rand (suc fuel) i nlocks global_var =
    let lock = rand i % mutex_num in
    let left = sub32 nlocks 1 in
    let rest = lock_rounds mutex_num rand fuel (i + 1) left (add32 global_var 1) in
    if ltb 0 left
    then elim rest [ none ↦ none | some (locks, g) ↦ some (lock ∷ locks, g) ]
    else some (lock ∷ [], add32 global_var 1)
