-- ===== src/Workloads/Shared/Rounds.antt =====
-- The rounds of the mutex test.
use my_sqltutorials.Prelude.{
  ℕ, zero, suc, ◌+◌, ◌%◌, ◌≤◌, ◌<◌, ◌≡◌, inl, inr, refl, ap, sym, ◌∙◌, arith, none, some, List, [],
  ◌∷◌, ltb, Bool-cases, length,
}
use native.Mathlib.Nat.{mod-lt}
use my_sqltutorials.Prelude.Words.{u32_mod, add32, sub32}
use my_sqltutorials.Workloads.Shared.{lock_rounds}

abbrev pub AllBelow : ℕ → List ℕ → Type 0
AllBelow n [] = Unit {0}
AllBelow n (l ∷ ls) = (l < n) × AllBelow n ls

-- With at least one mutex, a request for at least one lock, with as much fuel, takes as many
-- locks, each one that exists, and adds their number to `global_var`.
pub lock_rounds_lem :
    (mutex_num : ℕ) (rand : ℕ → ℕ) (fuel i nlocks global_var : ℕ)
    → 0 < mutex_num
    → 0 < nlocks
    → nlocks < u32_mod
    → nlocks ≤ fuel
    → global_var < u32_mod
    → (locks : List ℕ) × (lock_rounds mutex_num rand fuel i nlocks global_var
        ≡ some (locks, add32 global_var nlocks))
      × (length locks ≡ nlocks)
      × AllBelow mutex_num locks
unfolding lock_rounds
lock_rounds_lem m rand zero i n g h p q k w = absurd (omega arith)
lock_rounds_lem m rand (suc fuel) i n g h p q k w = elim (Bool-cases (ltb 0 (sub32 n 1))) [
  | inl more ↦
      (let (locks, e, count, below) =
          lock_rounds_lem m rand fuel (i + 1) (sub32 n 1) (add32 g 1) h (ground arith) (omega arith)
            (ground arith) (omega arith) in
        let sum : add32 (add32 g 1) (sub32 n 1) ≡ add32 g n = omega arith in
        (
          rand i % m ∷ locks,
          ground (arith, e) ∙ ap (λ x. some (rand i % m ∷ locks, x)) sum,
          ground (arith, count),
          (mod-lt (rand i) h, below),
        ))
  | inr last ↦
      (let one : n ≡ 1 = ground arith in
        (rand i % m ∷ [], ground arith, sym one, (mod-lt (rand i) h, tt)))
]

too_few :
    (mutex_num : ℕ) (rand : ℕ → ℕ) (fuel i nlocks global_var : ℕ)
    → nlocks < u32_mod
    → fuel < nlocks
    → lock_rounds mutex_num rand fuel i nlocks global_var ≡ none
unfolding lock_rounds
too_few m rand zero i n g h k = refl
too_few m rand (suc fuel) i n g h k =
    ground (arith, too_few m rand fuel (i + 1) (sub32 n 1) (add32 g 1) (omega arith) (omega arith))

-- A request for no lock does not end within 2^32 - 1 rounds.
pub no_locks :
    (mutex_num : ℕ) (rand : ℕ → ℕ) (fuel i global_var : ℕ)
    → fuel < u32_mod
    → lock_rounds mutex_num rand fuel i 0 global_var ≡ none
unfolding lock_rounds
no_locks m rand zero i g h = refl
no_locks m rand (suc fuel) i g h =
    ground (arith, too_few m rand fuel (i + 1) (sub32 0 1) (add32 g 1) (omega arith) (omega arith))
