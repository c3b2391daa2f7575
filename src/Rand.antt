-- ===== src/Rand.antt =====
-- sysbench-0.5/sysbench/sysbench.c: the random numbers in a range. The i-th result of `sb_rnd()` is
-- `rnd i`. `int` operations do not overflow; `none` is a division by zero. The Pareto distribution
-- (floating point) is not modelled.
pub mod Range
pub mod Unique
pub mod Strings
mod Tests
use my_sqltutorials.Prelude.{
  ℕ, zero, suc, ◌+◌, ◌-◌, ◌*◌, ◌/◌, ◌%◌, ◌^◌, ◌≤◌, ◌<◌, ◌≡◌, ◌≢◌, ◌↔◌, ◌⊎◌, inl, inr, refl, ap, sym,
  ◌∙◌, arith, Bool, true, false, not, Option, none, some, List, [], ◌∷◌, ◌++◌, map, ltb, leb, ◌==◌,
  ◌&&◌, ◌||◌, if◌then◌else◌, Bool-cases, length, get_elem?, set, take, drop, replicate,
  length-append, get_elem?-set_ne, get_elem?-set_self, foldr, Chars,
}
use my_sqltutorials.Prelude.Int.{ℤ, pos, negsuc, ◌+ℤ◌, ◌-ℤ◌, ltb_ℤ, pos_part, neg_part}
use my_sqltutorials.Prelude.Words.{u32_mod, u64_mod, add32, sub32, add64, to_u32, to_u64, signed32}

-- The size of a range as `int`, and as `unsigned int`.
unfoldable pub width : ℤ → ℤ → ℤ
width a b = b -ℤ a +ℤ pos 1

abbrev pub abs : ℤ → ℕ
abs n = pos_part n + neg_part n

unfoldable pub rand_uniform : (rnd : ℕ → ℕ) (a b : ℤ) → Option ℤ
rand_uniform rnd a b =
    let n = abs (width a b) in if n == 0 then none else some (a +ℤ pos (rnd 0 % n))

-- The loops that add `iter` random numbers below `t`.
unfoldable pub sum_draws : (t : ℕ) (rnd : ℕ → ℕ) (iter : ℕ) → ℕ
sum_draws t rnd zero = 0
sum_draws t rnd (suc i) = add32 (sum_draws t rnd i) (rnd i % t)

-- An `unsigned int` added to an `int`, as `int`.
unfoldable pub offset_by : ℤ → ℕ → ℤ
offset_by a x = signed32 (add32 (to_u32 a) x)

unfoldable pub rand_gaussian : (rnd : ℕ → ℕ) (rand_iter : ℕ) (a b : ℤ) → Option ℤ
rand_gaussian rnd rand_iter a b =
    let t = to_u32 (width a b) in
    if (t == 0) || (rand_iter == 0)
    then none
    else some (offset_by a (sum_draws t rnd rand_iter / rand_iter))

-- The part of the special values: `res` is mapped to `rand_pct` per cent of the range, in its centre.
unfoldable pub special_value : (rand_pct t res : ℕ) → ℕ
special_value rand_pct t res =
    let d = t * rand_pct % u32_mod / 100 in
    let d' = if ltb d 1 then 1 else d in
    add32 (res % d') (sub32 (t / 2) (t * rand_pct % u32_mod / 200))

unfoldable pub special_draw : (rnd : ℕ → ℕ) (rand_iter rand_pct t res : ℕ) (a : ℤ) → Option ℤ
special_draw rnd rand_iter rand_pct t res a =
    if ltb res t
    then (if rand_iter == 0
        then none
        else some (offset_by a (sum_draws t (λ i. rnd (suc i)) rand_iter / rand_iter)))
    else some (offset_by a (special_value rand_pct t res))

-- `none` also where 100 / (100 - rand_res) is zero, which makes the range empty.
unfoldable pub rand_special : (rnd : ℕ → ℕ) (rand_iter rand_pct rand_res : ℕ) (a b : ℤ) → Option ℤ
rand_special rnd rand_iter rand_pct rand_res a b =
    if not (ltb_ℤ a b)
    then some (pos 0)
    else (let t = to_u32 (width a b) in
        let left = sub32 100 rand_res in
        let range_size = t * (100 / left) % u32_mod in
        if (left == 0) || (range_size == 0)
        then none
        else special_draw rnd rand_iter rand_pct t (rnd 0 % range_size) a)

abbrev pub large_prime : ℕ
large_prime = 2147483647

-- The result, and the next `rnd_seed`.
unfoldable pub rand_uniq : (rnd_seed : ℕ) (a b : ℤ) → Option (ℤ × ℕ)
rand_uniq rnd_seed a b =
    let n = to_u64 (width a b) in
    if n == 0
    then none
    else some (signed32 (rnd_seed % n % u32_mod) +ℤ a, add64 rnd_seed large_prime)
