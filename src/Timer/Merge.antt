-- ===== src/Timer/Merge.antt =====
-- `merge_timers`, and its fold over the timers of all threads.
use my_sqltutorials.Prelude.{
  ℕ, ◌≤◌, ◌≡◌, arith, List, [], ◌∷◌, ◌++◌, min, max, length-append, sum-append,
}
use my_sqltutorials.Timer.{Timer, merge}
use my_sqltutorials.Timer.History.{Summarises, least, greatest}

least-le : (xs : List ℕ) → least xs ≤ 0xffff_ffff_ffff_ffff
least-le [] = omega arith
least-le (x ∷ xs) = omega (arith, least-le xs)

least-append : (xs ys : List ℕ) → least (xs ++ ys) ≡ min (least xs) (least ys)
least-append [] ys = omega (arith, least-le ys)
least-append (x ∷ xs) ys = omega (arith, least-append xs ys)

greatest-append : (xs ys : List ℕ) → greatest (xs ++ ys) ≡ max (greatest xs) (greatest ys)
greatest-append [] ys = omega arith
greatest-append (x ∷ xs) ys = omega (arith, greatest-append xs ys)

-- The merged timer has the counters of the durations of both.
pub merge-Summarises :
    (t u : Timer) (xs ys : List ℕ)
    → Summarises t xs
    → Summarises u ys
    → Summarises (merge t u) (xs ++ ys)
unfolding merge
merge-Summarises t u xs ys h k =
    ground (arith, length-append xs ys, sum-append xs ys, least-append xs ys, greatest-append xs ys)
