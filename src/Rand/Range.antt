-- ===== src/Rand/Range.antt =====
-- The random numbers stay in their range.
use my_sqltutorials.Prelude.{
  ℕ, zero, suc, ◌+◌, ◌-◌, ◌*◌, ◌/◌, ◌%◌, ◌≤◌, ◌<◌, ◌≡◌, inl, inr, refl, ap, sym, ap₂, subst, ◌∙◌,
  arith, Bool, true, false, not, none, some, ltb, ◌==◌, ◌||◌, if◌then◌else◌, Bool-cases,
}
use native.Mathlib.Nat.{mod-lt}
use my_sqltutorials.Prelude.Int.{ℤ, pos, negsuc, ◌+ℤ◌, ◌-ℤ◌, ltb_ℤ}
use my_sqltutorials.Prelude.Words.{u32_mod, add32, sub32, to_u32}
use my_sqltutorials.Rand.{
  width, abs, rand_uniform, sum_draws, offset_by, rand_gaussian, special_value, special_draw,
  rand_special,
}

-- `r` is one of a, a + 1, ..., a + k.
abbrev pub IsBetween : ℤ → ℕ → ℤ → Type 0
IsBetween a k r = (i : ℕ) × (i ≤ k) × (r ≡ a +ℤ pos i)

-- The value is an `int`.
abbrev pub IsInt : ℤ → Type 0
IsInt (pos n) = n < 2147483648
IsInt (negsuc n) = n < 2147483648

pub width_lem : (a : ℤ) (k : ℕ) → width a (a +ℤ pos k) ≡ pos (k + 1)
unfolding width ◌+ℤ◌ ◌-ℤ◌
width_lem a k = ground arith

-- sb_rand_uniform gives a number of its range, where the range is not empty.
pub rand_uniform-IsBetween :
    (rnd : ℕ → ℕ) (a : ℤ) (k : ℕ)
    → (r : ℤ) × (rand_uniform rnd a (a +ℤ pos k) ≡ some r) × IsBetween a k r
unfolding rand_uniform
rand_uniform-IsBetween rnd a k = (
  a +ℤ pos (rnd 0 % (k + 1)),
  ap (λ w. if abs w == 0 then none else some (a +ℤ pos (rnd 0 % abs w))) (width_lem a k)
      ∙ ground arith,
  (rnd 0 % (k + 1), omega (arith, mod-lt (rnd 0) {m = k + 1} (omega arith)), refl),
)

offset_by_lem :
    (a : ℤ) (i : ℕ) → IsInt a → IsInt (a +ℤ pos i) → i < 4294967296 → offset_by a i ≡ a +ℤ pos i
unfolding offset_by ◌+ℤ◌
offset_by_lem (pos n) i h k l = ground arith
offset_by_lem (negsuc n) i h k l = ground arith

-- The numbers between two `int`s are `int`s.
between-IsInt : (a : ℤ) (i k : ℕ) → IsInt a → IsInt (a +ℤ pos k) → i ≤ k → IsInt (a +ℤ pos i)
unfolding ◌+ℤ◌
between-IsInt (pos n) i k h l p = ground arith
between-IsInt (negsuc n) i k h l p = ground arith

to_u32-width : (a : ℤ) (k : ℕ) → k < 4294967295 → to_u32 (width a (a +ℤ pos k)) ≡ k + 1
to_u32-width a k l = ap to_u32 (width_lem a k) ∙ omega arith

sum_step : (s i k x : ℕ) → s ≤ i * k → x ≤ k → s + x ≤ suc i * k
sum_step s i k x h l = grind arith

mul_mono : (i n k : ℕ) → i ≤ n → i * k ≤ n * k
mul_mono i n k h = grind arith

sum_draws-bound :
    (k : ℕ) (rnd : ℕ → ℕ) (iter i : ℕ)
    → i ≤ iter
    → iter * k < u32_mod
    → sum_draws (k + 1) rnd i ≤ i * k
unfolding sum_draws
sum_draws-bound k rnd iter zero l m = omega arith
sum_draws-bound k rnd iter (suc i) l m =
    let below : rnd i % (k + 1) ≤ k = omega (arith, mod-lt (rnd i) {m = k + 1} (omega arith)) in
    let step =
      sum_step (sum_draws (k + 1) rnd i) i k (rnd i % (k + 1))
        (sum_draws-bound k rnd iter i (omega arith) m) below in
    omega (arith, step, mul_mono (suc i) iter k l)

average_le : (s n k : ℕ) → 0 < n → s ≤ n * k → s / n ≤ k
average_le s n k h l = grind arith

draws-bound :
    (k : ℕ) (rnd : ℕ → ℕ) (iter : ℕ)
    → 0 < iter
    → iter * k < u32_mod
    → sum_draws (k + 1) rnd iter / iter ≤ k
draws-bound k rnd iter h l =
    average_le (sum_draws (k + 1) rnd iter) iter k h
      (sum_draws-bound k rnd iter iter (omega arith) l)

special_le :
    (k x m : ℕ)
    → 0 < k
    → k < 4294967295
    → x ≤ (k + 1) * 100
    → x < 4294967296
    → m ≤ x / 100 - 1
    → add32 m (sub32 ((k + 1) / 2) (x % u32_mod / 200)) ≤ k
special_le k x m h l b c d = omega arith

divisor_le : (x res : ℕ) → res % (if ltb (x / 100) 1 then 1 else x / 100) ≤ x / 100 - 1
divisor_le x res = elim (Bool-cases (ltb (x / 100) 1)) [
  | inl e ↦
      subst (λ (b : Bool). res % (if b then 1 else x / 100) ≤ x / 100 - 1) (sym e)
        (omega (arith, mod-lt res {m = 1} (omega arith)))
  | inr e ↦
      subst (λ (b : Bool). res % (if b then 1 else x / 100) ≤ x / 100 - 1) (sym e)
        (omega (arith, mod-lt res {m = x / 100} (ground arith)))
]

mul_le : (n p : ℕ) → p ≤ 100 → n * p ≤ n * 100
mul_le n p h = grind arith

ltb-between : (a : ℤ) (k : ℕ) → 0 < k → ltb_ℤ a (a +ℤ pos k) ≡ true
unfolding ◌+ℤ◌
ltb-between (pos n) k h = ground arith
ltb-between (negsuc n) k h = ground arith

factor_pos : (n q : ℕ) → 0 < n → 0 < q → 0 < n * q
factor_pos n q h l = grind arith

-- The enlarged range is not empty.
range-pos :
    (k rand_res : ℕ)
    → rand_res < 100
    → (k + 1) * 100 < u32_mod
    → ((sub32 100 rand_res == 0) || ((k + 1) * (100 / sub32 100 rand_res) % u32_mod == 0)) ≡ false
range-pos k rand_res h l =
    let left : sub32 100 rand_res ≡ 100 - rand_res = omega arith in
    let q = 100 / sub32 100 rand_res in
    let q_pos : 0 < q = grind (arith, left) in
    let q_le : q ≤ 100 = grind (arith, left) in
    ground (arith, factor_pos (k + 1) q (omega arith) q_pos, mul_le (k + 1) q q_le)

module _ (a : ℤ) (k : ℕ) (low : IsInt a) (high : IsInt (a +ℤ pos k)) (narrow : k < 4294967295) where
  offset-IsBetween : (i : ℕ) → i ≤ k → IsBetween a k (offset_by a i)
  offset-IsBetween i l =
      (i, l, offset_by_lem a i low (between-IsInt a i k low high l) (omega arith))

  -- sb_rand_gaussian gives a number of its range, where the bounds are `int`s, there is at least
  -- one draw, and the sum of the draws fits into 32 bits.
  pub rand_gaussian-IsBetween :
      (rnd : ℕ → ℕ) (rand_iter : ℕ)
      → 0 < rand_iter
      → rand_iter * k < u32_mod
      → (r : ℤ) × (rand_gaussian rnd rand_iter a (a +ℤ pos k) ≡ some r) × IsBetween a k r
  unfolding rand_gaussian
  rand_gaussian-IsBetween rnd rand_iter h l =
      let x = sum_draws (k + 1) rnd rand_iter / rand_iter in
      (
        offset_by a x,
        ap
              (λ t.
                if (t == 0) || (rand_iter == 0)
                then none
                else some (offset_by a (sum_draws t rnd rand_iter / rand_iter)))
              (to_u32-width a k narrow)
            ∙ ground arith,
        offset-IsBetween x (draws-bound k rnd rand_iter h l),
      )

  special_value-bound :
      (rand_pct res : ℕ)
      → 0 < k
      → rand_pct ≤ 100
      → (k + 1) * rand_pct < u32_mod
      → special_value rand_pct (k + 1) res ≤ k
  unfolding special_value
  special_value-bound rand_pct res h p l =
      let x = (k + 1) * rand_pct in
      let small : x % u32_mod ≡ x = omega arith in
      subst
        (λ (y : ℕ).
          add32 (res % (if ltb (y / 100) 1 then 1 else y / 100))
            (sub32 ((k + 1) / 2) (x % u32_mod / 200))
          ≤ k)
        (sym small)
        (special_le k x (res % (if ltb (x / 100) 1 then 1 else x / 100)) h narrow
          (mul_le (k + 1) rand_pct p) l (divisor_le x res))

  special_draw-IsBetween :
      (rnd : ℕ → ℕ) (rand_iter rand_pct res : ℕ)
      → 0 < k
      → 0 < rand_iter
      → rand_iter * k < u32_mod
      → rand_pct ≤ 100
      → (k + 1) * rand_pct < u32_mod
      → (r : ℤ) × (special_draw rnd rand_iter rand_pct (k + 1) res a ≡ some r) × IsBetween a k r
  unfolding special_draw
  special_draw-IsBetween rnd rand_iter rand_pct res h i l p m =
      let x = sum_draws (k + 1) (λ j. rnd (suc j)) rand_iter / rand_iter in
      let y = special_value rand_pct (k + 1) res in
      elim (Bool-cases (ltb res (k + 1))) [
        | inl e ↦ (
          offset_by a x,
          ground arith,
          offset-IsBetween x (draws-bound k (λ j. rnd (suc j)) rand_iter i l),
        )
        | inr e ↦ (
          offset_by a y,
          ground arith,
          offset-IsBetween y (special_value-bound rand_pct res h p m),
        )
      ]

  -- sb_rand_special gives a number of its range (of two numbers at least, with `int` bounds), when
  -- there is at least one draw, `rand_pct` is at most 100, `rand_res` is below 100 and the
  -- products of the code fit into 32 bits.
  pub rand_special-IsBetween :
      (rnd : ℕ → ℕ) (rand_iter rand_pct rand_res : ℕ)
      → 0 < k
      → 0 < rand_iter
      → rand_iter * k < u32_mod
      → rand_pct ≤ 100
      → (k + 1) * rand_pct < u32_mod
      → rand_res < 100
      → (k + 1) * 100 < u32_mod
      → (r : ℤ) × (rand_special rnd rand_iter rand_pct rand_res a (a +ℤ pos k) ≡ some r)
        × IsBetween a k r
  unfolding rand_special
  rand_special-IsBetween rnd rand_iter rand_pct rand_res h i l p m q n =
      let left = sub32 100 rand_res in
      let drawn =
        λ (t : ℕ). special_draw rnd rand_iter rand_pct t (rnd 0 % (t * (100 / left) % u32_mod)) a in
      let (r, e, between) =
        special_draw-IsBetween rnd rand_iter rand_pct (rnd 0 % ((k + 1) * (100 / left) % u32_mod)) h
          i l p m in
      (
        r,
        ap₂
              (λ b t.
                if not b
                then some (pos 0)
                else if (left == 0) || (t * (100 / left) % u32_mod == 0)
                then none
                else drawn t)
              (ltb-between a k h) (to_u32-width a k narrow)
            ∙ ap (λ b. if b then none else drawn (k + 1)) (range-pos k rand_res q n)
            ∙ e,
        between,
      )
