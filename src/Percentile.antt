-- ===== src/Percentile.antt =====
-- sysbench-0.5/sysbench/sb_percentile.c: a histogram of response times on a logarithmic scale.
-- Floating point and `log`, `exp` and `floor` come from outside the program, as `Doubles`. Each
-- operation runs under the mutex of the histogram, so it is one step here. `none` is an access out of
-- the bounds of `values`.
pub mod Histogram
pub mod Rank
mod Tests
use my_sqltutorials.Prelude.{
  ℕ, zero, suc, ◌+◌, ◌-◌, ◌%◌, Bool, true, false, Option, none, some, List, [], ◌∷◌, ltb, leb, ◌==◌,
  ◌&&◌, if◌then◌else◌, get_elem?, get_or, set, replicate, length,
}
use my_sqltutorials.Prelude.Words.{add64, u32_mod}

-- `double` and what the code calls of it; `floor` includes the conversion to an unsigned integer.
pub record Doubles : Type 1 where
  pub Double : Type 0
  pub lt : Double → Double → Bool
  pub add : Double → Double → Double
  pub sub : Double → Double → Double
  pub mul : Double → Double → Double
  pub div : Double → Double → Double
  pub of_unsigned : ℕ → Double
  pub half : Double
  pub log : Double → Double
  pub exp : Double → Double
  pub floor : Double → ℕ

pub record Percentile (d : Doubles) : Type 0 where
  pub values : List ℕ
  pub tmp : List ℕ
  pub total : ℕ
  pub size : ℕ
  pub range_min : d.Double
  pub range_max : d.Double
  pub range_deduct : d.Double
  pub range_mult : d.Double

-- The loop of sb_percentile_calculate: `rest` are the entries of `tmp` from `i` on.
unfoldable pub find_rank : (nmax ncur i : ℕ) → List ℕ → ℕ
find_rank nmax ncur i [] = i
find_rank nmax ncur i (v ∷ rest) =
    let next = find_rank nmax (add64 ncur v) (i + 1) rest in
    if leb nmax (add64 ncur v) then i else next

-- The index that the loop ends with; the code reads `tmp[0]` before it.
unfoldable pub rank_index : ℕ → List ℕ → Option ℕ
unfolding find_rank
rank_index nmax [] = none
rank_index nmax (v ∷ rest) = some (find_rank nmax v 1 rest)

module _ (d : Doubles) where
  open d use {Double, lt, add, sub, mul, div, of_unsigned, half, log, exp, floor}

  -- `values_ok` and `tmp_ok` say whether the two calls of `calloc` succeed.
  unfoldable pub init :
      (values_ok tmp_ok : Bool) (size : ℕ) (range_min range_max : Double) → Option (Percentile d)
  init values_ok tmp_ok size range_min range_max = if values_ok && tmp_ok then some fresh else none
    where
      fresh : Percentile d
      fresh = record {
        values = replicate size 0;
        tmp = replicate size 0;
        total = 0;
        size = size;
        range_min = range_min;
        range_max = range_max;
        range_deduct = log range_min;
        range_mult =
            div (of_unsigned ((size + u32_mod - 1) % u32_mod))
              (sub (log range_max) (log range_min));
      }

  unfoldable pub clamp : Percentile d → Double → Double
  clamp p value =
      if lt value p.range_min
      then p.range_min
      else if lt p.range_max value
      then p.range_max
      else value

  unfoldable pub index : Percentile d → Double → ℕ
  unfolding clamp
  index p value = floor (add (mul (sub (log (clamp p value)) p.range_deduct) p.range_mult) half)

  -- `total++` and `values[n]++`
  unfoldable pub count_at : ℕ → Percentile d → Option (Percentile d)
  count_at n p =
      if ltb n (length p.values)
      then some (record p {
        total = add64 p.total 1;
        values = set p.values n (add64 (get_or p.values n 0) 1);
      })
      else none

  unfoldable pub update : Percentile d → Double → Option (Percentile d)
  unfolding index count_at
  update p value = count_at (index p value) p

  -- The rank is the number of measurements that the percentile asks for.
  unfoldable pub rank : Percentile d → Double → ℕ
  rank p percent = floor (add (div (mul (of_unsigned p.total) percent) (of_unsigned 100)) half)

  unfoldable pub calculate : Percentile d → Double → Option (Double × Percentile d)
  calculate p percent =
      if p.total == 0
      then some (of_unsigned 0, p)
      else elim (rank_index (rank p percent) p.values) [
        | none ↦ none
        | some i ↦ some (
          exp (add (div (of_unsigned i) p.range_mult) p.range_deduct),
          record p { tmp = p.values },
        )
      ]

  unfoldable pub reset : Percentile d → Percentile d
  reset p = record p { total = 0; values = replicate p.size 0 }
