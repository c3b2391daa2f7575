-- ===== src/Timer/Average.antt =====
-- `get_avg_time` against the measured durations.
use my_sqltutorials.Prelude.{
  ℕ, suc, ◌+◌, ◌*◌, ◌/◌, ◌≤◌, ◌<◌, ◌≢◌, refl, arith, List, [], ◌∷◌, length, sum, min, max,
}
use my_sqltutorials.Prelude.Words.{u64_mod}
use my_sqltutorials.Timer.{Timer, avg_time}
use my_sqltutorials.Timer.History.{Summarises, least, greatest}

scale_le : (m l n s x : ℕ) → m ≤ l → m ≤ x → l * n ≤ s → m * suc n ≤ x + s
scale_le m l n s x h k p = grind arith

le_scale : (m l n s x : ℕ) → l ≤ m → x ≤ m → s ≤ l * n → x + s ≤ m * suc n
le_scale m l n s x h k p = grind arith

least-sum : (xs : List ℕ) → least xs * length xs ≤ sum xs
least-sum [] = omega arith
least-sum (x ∷ xs) =
    scale_le (min x (least xs)) (least xs) (length xs) (sum xs) x (omega arith) (omega arith)
      (least-sum xs)

greatest-sum : (xs : List ℕ) → sum xs ≤ greatest xs * length xs
greatest-sum [] = omega arith
greatest-sum (x ∷ xs) =
    le_scale (max x (greatest xs)) (greatest xs) (length xs) (sum xs) x (omega arith) (omega arith)
      (greatest-sum xs)

quotient_bounds : (s n a b : ℕ) → 0 < n → a * n ≤ s → s ≤ b * n → (a ≤ s / n) × (s / n ≤ b)
quotient_bounds s n a b h p q = (grind arith, grind arith)

length_pos : (xs : List ℕ) → xs ≢ [] → 0 < length xs
length_pos [] h = absurd (h refl)
length_pos (x ∷ xs) h = omega arith

-- While the count and the sum do not wrap, and something was measured, the average that
-- `get_avg_time` gives lies between the minimum and the maximum.
pub avg_bounds :
    (t : Timer) (xs : List ℕ)
    → Summarises t xs
    → xs ≢ []
    → sum xs < u64_mod
    → length xs < u64_mod
    → (t.min_time ≤ avg_time t) × (avg_time t ≤ t.max_time)
unfolding avg_time
avg_bounds t xs h ne hs hl = ground (
  arith,
  length_pos xs ne,
  quotient_bounds (sum xs) (length xs) (least xs) (greatest xs),
  least-sum xs,
  greatest-sum xs,
)
