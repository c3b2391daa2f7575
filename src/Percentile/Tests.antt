-- ===== src/Percentile/Tests.antt =====
-- The histogram over whole numbers in place of `double`, with a linear scale.
use my_sqltutorials.Prelude.{
  ℕ, true, ◌+◌, ◌-◌, ◌*◌, ◌/◌, ◌%◌, ◌≡◌, refl, some, [], ◌∷◌, arith, ltb, get_or,
}
use my_sqltutorials.Percentile.{Doubles, Percentile, init, index, update, calculate, rank, reset}
use my_sqltutorials.Percentile.Histogram.{
  Counts, InRange, update_all, update_all-histogram, count, reset-Counts,
}
use my_sqltutorials.Percentile.Rank.{IsRank, calculate_lem}

abbrev whole : Doubles
whole = record {
  Double = ℕ;
  lt = ltb;
  add = λ a b. a + b;
  sub = λ a b. a - b;
  mul = λ a b. a * b;
  div = λ a b. a / b;
  of_unsigned = λ a. a;
  half = 0;
  log = λ a. a;
  exp = λ a. a;
  floor = λ a. a;
}

abbrev fresh : Percentile whole
fresh = record {
  values = 0 ∷ 0 ∷ 0 ∷ 0 ∷ [];
  tmp = 0 ∷ 0 ∷ 0 ∷ 0 ∷ [];
  total = 0;
  size = 4;
  range_min = 0;
  range_max = 3;
  range_deduct = 0;
  range_mult = 1;
}

abbrev filled : Percentile whole
filled = record fresh { values = 1 ∷ 0 ∷ 2 ∷ 1 ∷ []; total = 4 }

fresh_state : init whole true true 4 0 3 ≡ some fresh
unfolding init
fresh_state = refl

update_all_run : update_all fresh (2 ∷ 9 ∷ 0 ∷ 2 ∷ []) ≡ some filled
unfolding update_all update
update_all_run = refl

fresh-Counts : Counts fresh []
unfolding reset
fresh-Counts = reset-Counts fresh

fresh-InRange : InRange fresh
unfolding index
fresh-InRange v = ground arith

update_all-histogram_example :
    (q : Percentile whole) × (update_all fresh (2 ∷ 9 ∷ 0 ∷ 2 ∷ []) ≡ some q)
    × (q.total ≡ 4)
    × ((i : ℕ) → get_or q.values i 0 ≡ count i (2 ∷ 3 ∷ 0 ∷ 2 ∷ []) % 18446744073709551616)
unfolding index
update_all-histogram_example =
    update_all-histogram fresh (2 ∷ 9 ∷ 0 ∷ 2 ∷ []) fresh-Counts fresh-InRange

calculate_lem_example :
    (i : ℕ) × (calculate whole filled 50 ≡ some (i / 1 + 0, record filled { tmp = filled.values }))
    × IsRank (rank whole filled 50) (1 ∷ 0 ∷ 2 ∷ 1 ∷ []) i
calculate_lem_example = calculate_lem whole filled 50 (λ e. cc) (omega arith) (omega arith)
