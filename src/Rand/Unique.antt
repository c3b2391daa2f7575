-- ===== src/Rand/Unique.antt =====
-- The numbers of sb_rand_uniq, one call after the other.
use my_sqltutorials.Prelude.{
  ℕ, zero, suc, ◌+◌, ◌*◌, ◌%◌, ◌^◌, ◌≤◌, ◌<◌, ◌≡◌, ◌≢◌, refl, ap, sym, subst, ◌∙◌, arith, Option,
  some, List, [], ◌∷◌, ◌>>=◌, length, if◌then◌else◌, inl, inr, ◌⊎◌, none, ◌==◌, ◌-◌,
}
use native.Mathlib.Nat.{mod-lt, add-mod, mod-eq_of_lt, mod-eq-sub-mod}
use my_sqltutorials.Prelude.Int.{ℤ, pos, negsuc, ◌+ℤ◌}
use my_sqltutorials.Prelude.Words.{u32_mod, u64_mod, to_u64, add64, signed32}
use my_sqltutorials.Rand.{rand_uniq, large_prime, width}
use my_sqltutorials.Rand.Range.{IsBetween, width_lem}

-- The results of `calls` calls.
unfoldable pub uniqs : (rnd_seed : ℕ) (a b : ℤ) (calls : ℕ) → Option (List ℤ)
unfolding rand_uniq
uniqs rnd_seed a b zero = some []
uniqs rnd_seed a b (suc calls) = do
  (r, next_seed) ← rand_uniq rnd_seed a b
  rs ← uniqs next_seed a b calls
  some (r ∷ rs)

abbrev pub Differs : ℤ → List ℤ → Type 0
Differs r [] = Unit {0}
Differs r (s ∷ rs) = (r ≢ s) × Differs r rs

abbrev pub AllDifferent : List ℤ → Type 0
AllDifferent [] = Unit {0}
AllDifferent (r ∷ rs) = Differs r rs × AllDifferent rs

abbrev pub AllBetween : ℤ → ℕ → List ℤ → Type 0
AllBetween a k [] = Unit {0}
AllBetween a k (r ∷ rs) = IsBetween a k r × AllBetween a k rs

-- A size that has no factor in common with LARGE_PRIME.
abbrev pub IsCoprime : ℕ → Type 0
IsCoprime n = (d : ℕ) → (d * large_prime) % n ≡ 0 → d % n ≡ 0

lt_cases : (x n : ℕ) → (x < n) ⊎ (n ≤ x)
lt_cases x n = ground arith

cancel_small : (n u v : ℕ) → u < n → v < n → (u + v) % n ≡ u → v ≡ 0
cancel_small n u v h k e = elim (lt_cases (u + v) n) [
  | inl small ↦ omega (arith, mod-eq_of_lt small, e)
  | inr large ↦
      let less : u + v - n < n = omega arith in
      absurd (omega (arith, mod-eq-sub-mod large, mod-eq_of_lt less, e))
]

cancel_mod : (n x y : ℕ) → 0 < n → (x + y) % n ≡ x % n → y % n ≡ 0
cancel_mod n x y h e =
    cancel_small n (x % n) (y % n) (mod-lt x h) (mod-lt y h) (sym (add-mod x y n) ∙ e)

between_injective : (a : ℤ) (i j : ℕ) → a +ℤ pos i ≡ a +ℤ pos j → i ≡ j
unfolding ◌+ℤ◌
between_injective (pos n) i j e = ground (arith, e)
between_injective (negsuc n) i j e = ground (arith, e)

plus_comm : (a b : ℤ) → a +ℤ b ≡ b +ℤ a
unfolding ◌+ℤ◌
plus_comm a b = ground arith

signed_small : (x : ℕ) → x < 2 ^ 31 → signed32 (x % u32_mod) ≡ pos x
signed_small x h = ground (arith, mod-eq_of_lt {n = x} {m = u32_mod} (omega arith))

not_zero : (k : ℕ) (r : Option (ℤ × ℕ)) → (if k + 1 == 0 then none else r) ≡ r
not_zero k r = ground arith

-- What sb_rand_uniq computes for a range of n numbers.
rand_uniq_lem :
    (seed : ℕ) (a : ℤ) (k : ℕ)
    → k + 1 < 2 ^ 31
    → rand_uniq seed a (a +ℤ pos k) ≡ some (a +ℤ pos (seed % (k + 1)), add64 seed large_prime)
unfolding rand_uniq
rand_uniq_lem seed a k h =
    let n : to_u64 (width a (a +ℤ pos k)) ≡ k + 1 = ap to_u64 (width_lem a k) ∙ omega arith in
    let l : seed % (k + 1) < k + 1 = mod-lt seed {m = k + 1} (omega arith) in
    let s : signed32 (seed % (k + 1) % u32_mod) ≡ pos (seed % (k + 1)) =
      signed_small (seed % (k + 1)) (omega arith) in
    ap
      (λ m.
        if m == 0 then none else some (signed32 (seed % m % u32_mod) +ℤ a, add64 seed large_prime))
      n
    ∙ ap (λ z. if k + 1 == 0 then none else some (z, add64 seed large_prime))
        (ap (λ w. w +ℤ a) s ∙ plus_comm (pos (seed % (k + 1))) a)
    ∙ not_zero k (some (a +ℤ pos (seed % (k + 1)), add64 seed large_prime))

-- The numbers from a seed on.
abbrev pub values : (seed : ℕ) (a : ℤ) (k calls : ℕ) → List ℤ
values seed a k zero = []
values seed a k (suc calls) = (a +ℤ pos (seed % (k + 1))) ∷ values (seed + large_prime) a k calls

uniqs-values :
    (seed : ℕ) (a : ℤ) (k calls : ℕ)
    → k + 1 < 2 ^ 31
    → seed + calls * large_prime < 2 ^ 64
    → uniqs seed a (a +ℤ pos k) calls ≡ some (values seed a k calls)
unfolding uniqs
uniqs-values seed a k zero h l = refl
uniqs-values seed a k (suc calls) h l =
    let next : add64 seed large_prime ≡ seed + large_prime =
      mod-eq_of_lt {n = seed + large_prime} {m = u64_mod} (omega arith) in
    let ih = uniqs-values (seed + large_prime) a k calls h (omega arith) in
    rw (rand_uniq_lem seed a k h) (rw next (rw ih refl))

values-AllBetween : (seed : ℕ) (a : ℤ) (k calls : ℕ) → AllBetween a k (values seed a k calls)
values-AllBetween seed a k zero = tt
values-AllBetween seed a k (suc calls) = (
  (seed % (k + 1), omega (arith, mod-lt seed {m = k + 1} (omega arith)), refl),
  values-AllBetween (seed + large_prime) a k calls,
)

length-values : (seed : ℕ) (a : ℤ) (k calls : ℕ) → length (values seed a k calls) ≡ calls
length-values seed a k zero = refl
length-values seed a k (suc calls) = ap suc (length-values (seed + large_prime) a k calls)

-- A seed d steps later gives another number, for d below the size of the range.
later_differs :
    (seed d : ℕ) (a : ℤ) (k : ℕ)
    → IsCoprime (k + 1)
    → 0 < d
    → d ≤ k
    → (a +ℤ pos (seed % (k + 1))) ≢ (a +ℤ pos ((seed + d * large_prime) % (k + 1)))
later_differs seed d a k c h l e =
    let same : (seed + d * large_prime) % (k + 1) ≡ seed % (k + 1) =
      sym (between_injective a (seed % (k + 1)) ((seed + d * large_prime) % (k + 1)) e) in
    let z = c d (cancel_mod (k + 1) seed (d * large_prime) (omega arith) same) in
    let z' : d % (k + 1) ≡ d = mod-eq_of_lt {n = d} {m = k + 1} (omega arith) in
    absurd (omega (arith, z, z'))

values-Differs :
    (seed d : ℕ) (a : ℤ) (k calls : ℕ)
    → IsCoprime (k + 1)
    → 0 < d
    → d + calls ≤ k + 1
    → Differs (a +ℤ pos (seed % (k + 1))) (values (seed + d * large_prime) a k calls)
values-Differs seed d a k zero c h l = tt
values-Differs seed d a k (suc calls) c h l =
    let step : seed + suc d * large_prime ≡ seed + d * large_prime + large_prime = omega arith in
    (
      later_differs seed d a k c h (omega arith),
      subst (λ t. Differs (a +ℤ pos (seed % (k + 1))) (values t a k calls)) step
          (values-Differs seed (suc d) a k calls c (omega arith) (omega arith)),
    )

values-AllDifferent :
    (seed : ℕ) (a : ℤ) (k calls : ℕ)
    → IsCoprime (k + 1)
    → calls ≤ k + 1
    → AllDifferent (values seed a k calls)
values-AllDifferent seed a k zero c l = tt
values-AllDifferent seed a k (suc calls) c l =
    let step : seed + 1 * large_prime ≡ seed + large_prime = omega arith in
    (
      subst (λ t. Differs (a +ℤ pos (seed % (k + 1))) (values t a k calls)) step
          (values-Differs seed 1 a k calls c (omega arith) (omega arith)),
      values-AllDifferent (seed + large_prime) a k calls c (omega arith),
    )

-- In a range of fewer than 2^31 numbers, whose count has no factor in common with LARGE_PRIME, as
-- many calls as there are numbers, or fewer, that do not take the seed to 2^64, give different
-- numbers of the range.
pub uniqs-AllDifferent :
    (seed : ℕ) (a : ℤ) (k calls : ℕ)
    → k + 1 < 2 ^ 31
    → IsCoprime (k + 1)
    → calls ≤ k + 1
    → seed + calls * large_prime < 2 ^ 64
    → (rs : List ℤ) × (uniqs seed a (a +ℤ pos k) calls ≡ some rs)
      × (length rs ≡ calls)
      × AllBetween a k rs
      × AllDifferent rs
uniqs-AllDifferent seed a k calls h c l w = (
  values seed a k calls,
  uniqs-values seed a k calls h w,
  length-values seed a k calls,
  values-AllBetween seed a k calls,
  values-AllDifferent seed a k calls c l,
)
