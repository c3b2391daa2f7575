-- ===== src/Workloads/Cpu/Primes.antt =====
-- The cpu test against a search over all smaller numbers.
use my_sqltutorials.Prelude.{
  ℕ, zero, suc, ◌+◌, ◌-◌, ◌*◌, ◌/◌, ◌%◌, ◌≤◌, ◌<◌, ◌≡◌, ◌≢◌, ◌↔◌, inl, inr, refl, ap, ◌∙◌, arith,
  Bool, true, false, not, some, ltb, leb, ◌==◌, ◌&&◌, ◌||◌, if◌then◌else◌, Bool-cases,
}
use native.Mathlib.Nat.{mul-mod_left, div-add-mod}
use my_sqltutorials.Workloads.Cpu.{trial, count_primes, cpu_execute}

-- No number from 2 up to `d` (excluded) divides `c`.
abbrev pub no_divisor : (c d : ℕ) → Bool
no_divisor c zero = true
no_divisor c (suc d) = (leb d 1 || not (c % d == 0)) && no_divisor c d

abbrev pub is_prime : ℕ → Bool
is_prime c = no_divisor c c

-- The primes among the `rounds` numbers from `c` on.
abbrev pub primes_from : (rounds c : ℕ) → ℕ
primes_from zero c = 0
primes_from (suc rounds) c = (if is_prime c then 1 else 0) + primes_from rounds (c + 1)

-- What the code relies on: the comparison with the square root is exact.
abbrev pub IsRoot : (ℕ → ℕ → Bool) → Type 0
IsRoot below_root = (l c : ℕ) → (below_root l c ≡ true) ↔ (l * l ≤ c)

no_divisor_at : (c d e : ℕ) → no_divisor c d ≡ true → 2 ≤ e → e < d → c % e ≢ 0
no_divisor_at c zero e h p l = absurd (omega arith)
no_divisor_at c (suc d) e h p l = ground (arith, no_divisor_at c d e)

divisor_found : (c d : ℕ) → no_divisor c d ≡ false → (e : ℕ) × (2 ≤ e) × (e < d) × (c % e ≡ 0)
divisor_found c zero h = absurd (ground arith)
divisor_found c (suc d) h = elim (Bool-cases (no_divisor c d)) [
  | inl p ↦ (d, ground arith, omega arith, ground arith)
  | inr p ↦ (let (x, a, b, q) = divisor_found c d p in (x, a, omega arith, q))
]

-- The other factor of a divisor that is at least `l` lies below `l`, if the square of `l` exceeds c.
factor_bounds : (c d k l : ℕ) → c ≡ d * k → 2 ≤ d → d < c → l ≤ d → c < l * l → (2 ≤ k) × (k < l)
factor_bounds c d k l h p k' q m = (grind arith, grind arith)

cofactor :
    (c d l : ℕ)
    → c % d ≡ 0
    → 2 ≤ d
    → d < c
    → l ≤ d
    → c < l * l
    → (2 ≤ c / d) × (c / d < l) × (c % (c / d) ≡ 0)
cofactor c d l h p k q m =
    let e : c ≡ d * (c / d) = omega (arith, div-add-mod c d) in
    let (a, b) = factor_bounds c d (c / d) l e p k q m in
    (a, b, ap (λ x. x % (c / d)) e ∙ mul-mod_left d (c / d))

composite : (c l : ℕ) → 2 ≤ l → l < c → c % l ≡ 0 → is_prime c ≡ false
composite c l h k e = elim (Bool-cases (is_prime c)) [
  | inl p ↦ absurd (no_divisor_at c c l p h k e)
  | inr p ↦ p
]

prime : (c l : ℕ) → no_divisor c l ≡ true → c < l * l → is_prime c ≡ true
prime c l n m = elim (Bool-cases (is_prime c)) [
  | inl p ↦ p
  | inr p ↦
      (let (e, a, b, q) = divisor_found c c p in
        elim (Bool-cases (ltb e l)) [
          | inl below ↦ absurd (no_divisor_at c l e n a (ground arith) q)
          | inr above ↦
              (let (x, y, z) = cofactor c e l q a b (ground arith) m in
                absurd (no_divisor_at c l (c / e) n x y z))
        ])
]

below_square : (l c : ℕ) → 2 ≤ l → l * l ≤ c → l < c
below_square l c h k = grind arith

-- The loop decides whether there is a divisor, if none lies below its start.
trial_lem :
    (below_root : ℕ → ℕ → Bool) (fuel c l : ℕ)
    → IsRoot below_root
    → 2 ≤ l
    → c + 2 ≤ l + fuel
    → l ≤ c + 1
    → no_divisor c l ≡ true
    → trial below_root fuel c l ≡ some (is_prime c)
unfolding trial
trial_lem below_root zero c l r p h q n = absurd (omega arith)
trial_lem below_root (suc fuel) c l r p h q n = elim (Bool-cases (below_root l c)) [
  | inl small ↦
      (let inside = below_square l c p ((r l c).0 small) in
        elim (Bool-cases (c % l == 0)) [
          | inl e ↦ ground (arith, composite c l p inside)
          | inr e ↦
              (let next : l + 1 ≡ suc l = omega arith in
                let stays : no_divisor c (l + 1) ≡ true = ap (no_divisor c) next ∙ ground arith in
                ground (
                  arith,
                  trial_lem below_root fuel c (l + 1) r (omega arith) (omega arith) (omega arith)
                      stays,
                ))
        ])
  | inr large ↦ ground (arith, prime c l n (ground (arith, (r l c).1)))
]

trial-is_prime :
    (below_root : ℕ → ℕ → Bool) (c : ℕ)
    → IsRoot below_root
    → 2 ≤ c
    → trial below_root c c 2 ≡ some (is_prime c)
trial-is_prime below_root c r h =
    trial_lem below_root c c 2 r (omega arith) (omega arith) (omega arith) refl

count_lem :
    (below_root : ℕ → ℕ → Bool) (rounds c n : ℕ)
    → IsRoot below_root
    → 2 ≤ c
    → count_primes below_root rounds c n ≡ some (n + primes_from rounds c)
unfolding count_primes
count_lem below_root zero c n r h = ap some (omega arith)
count_lem below_root (suc rounds) c n r h = ground (
  arith,
  trial-is_prime below_root c r h,
  count_lem below_root rounds (c + 1) (n + 1) r (omega arith),
  count_lem below_root rounds (c + 1) n r (omega arith),
)

-- Where the comparison with the square root is exact, the cpu test always ends, and counts the
-- primes from 3 up to `max_prime` (excluded).
pub cpu_execute_lem :
    (below_root : ℕ → ℕ → Bool) (max_prime : ℕ)
    → IsRoot below_root
    → cpu_execute below_root max_prime ≡ some (primes_from (max_prime - 3) 3)
unfolding cpu_execute
cpu_execute_lem below_root max_prime r =
    count_lem below_root (max_prime - 3) 3 0 r (omega arith) ∙ ap some (omega arith)
