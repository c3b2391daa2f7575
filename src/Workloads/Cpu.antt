-- ===== src/Workloads/Cpu.antt =====
-- tests/cpu/sb_cpu.c: numbers are tested for a divisor up to their square root.
pub mod Primes
use my_sqltutorials.Prelude.{
  ℕ, zero, suc, ◌+◌, ◌-◌, ◌*◌, ◌/◌, ◌%◌, ◌^◌, ◌≤◌, ◌<◌, ◌≡◌, ◌≢◌, ◌↔◌, ◌⊎◌, inl, inr, refl, ap, sym,
  ◌∙◌, arith, Bool, true, false, not, Option, none, some, List, [], ◌∷◌, ◌++◌, map, ltb, leb, ◌==◌,
  ◌&&◌, ◌||◌, if◌then◌else◌, Bool-cases, length, get_elem?, set, take, drop, replicate,
  length-append, get_elem?-set_ne, get_elem?-set_self, foldr, Chars,
}
use my_sqltutorials.Prelude.Words.{u64_mod}

-- `below_root l c` is `l <= sqrt((double) c)`. The result is whether no divisor was found.
unfoldable pub trial : (below_root : ℕ → ℕ → Bool) (fuel c l : ℕ) → Option Bool
trial below_root zero c l = none
trial below_root (suc fuel) c l =
    let rest = trial below_root fuel c (l + 1) in
    if below_root l c then (if c % l == 0 then some false else rest) else some true

-- The outer loop from `c`, for `rounds` values; `n` is the count.
unfoldable pub count_primes : (below_root : ℕ → ℕ → Bool) (rounds c n : ℕ) → Option ℕ
count_primes below_root zero c n = some n
count_primes below_root (suc rounds) c n = elim (trial below_root c c 2) [
  | none ↦ none
  | some true ↦ count_primes below_root rounds (c + 1) (n + 1)
  | some false ↦ count_primes below_root rounds (c + 1) n
]

-- cpu_execute_request
unfoldable pub cpu_execute : (below_root : ℕ → ℕ → Bool) (max_prime : ℕ) → Option ℕ
cpu_execute below_root max_prime = count_primes below_root (max_prime - 3) 3 0
