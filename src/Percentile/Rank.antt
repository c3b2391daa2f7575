-- ===== src/Percentile/Rank.antt =====
-- Which bucket sb_percentile_calculate reports.
use my_sqltutorials.Prelude.{
  ℕ, zero, suc, ◌+◌, ◌-◌, ◌≤◌, ◌<◌, ◌≡◌, refl, arith, true, false, inl, inr, Bool-cases, some, List,
  [], ◌∷◌, length, sum, take, leb, ◌≢◌,
}
use my_sqltutorials.Prelude.Words.{u64_mod, add64}
use my_sqltutorials.Percentile.{Doubles, Percentile, find_rank, rank_index, rank, calculate}

-- `r` is the first index from `i` on at which the running sum, `ncur` before `i`, reaches `nmax`, or
-- the end of the array.
record IsFirst (nmax ncur i : ℕ) (rest : List ℕ) (r : ℕ) : Type 0 where
  from : i ≤ r
  within : r ≤ i + length rest
  before : (k : ℕ) → i + k < r → ncur + sum (take (suc k) rest) < nmax
  reached : r < i + length rest → nmax ≤ ncur + sum (take (suc (r - i)) rest)

module _ (nmax ncur i v : ℕ) (rest : List ℕ) (small : ncur + sum (v ∷ rest) < u64_mod) where
  IsFirst-here : leb nmax (add64 ncur v) ≡ true → IsFirst nmax ncur i (v ∷ rest) i
  IsFirst-here e = record {
    from = omega arith;
    within = omega arith;
    before = λ k l. absurd (omega arith);
    reached = λ l. ground arith;
  }

  IsFirst-later :
      (r : ℕ)
      → leb nmax (add64 ncur v) ≡ false
      → IsFirst nmax (add64 ncur v) (i + 1) rest r
      → IsFirst nmax ncur i (v ∷ rest) r
  IsFirst-later r e f = record {
    from = omega arith;
    within = omega arith;
    before = before;
    reached = λ l. reached (r - i - 1) (omega arith) l;
  }
    where
      before : (k : ℕ) → i + k < r → ncur + sum (take (suc k) (v ∷ rest)) < nmax
      before zero l = ground arith
      before (suc k) l = ground (arith, f.before k)

      reached :
          (m : ℕ)
          → r - i ≡ suc m
          → r < i + length (v ∷ rest)
          → nmax ≤ ncur + sum (take (suc (r - i)) (v ∷ rest))
      reached m e' l = rw e' (
          let e'' : r - (i + 1) ≡ m = omega arith in
          omega (arith, rw e'' at (f.reached (omega arith))))

find_rank-IsFirst :
    (nmax ncur i : ℕ) (rest : List ℕ)
    → ncur + sum rest < u64_mod
    → IsFirst nmax ncur i rest (find_rank nmax ncur i rest)
unfolding find_rank
find_rank-IsFirst nmax ncur i [] h = record {
  from = omega arith;
  within = omega arith;
  before = λ k l. absurd (omega arith);
  reached = λ l. absurd (omega arith);
}
find_rank-IsFirst nmax ncur i (v ∷ rest) h = elim (Bool-cases (leb nmax (add64 ncur v))) [
  | inl e ↦ rw e (IsFirst-here nmax ncur i v rest h e)
  | inr e ↦ rw e (
      IsFirst-later nmax ncur i v rest h _ e
        (find_rank-IsFirst nmax (add64 ncur v) (i + 1) rest (omega arith)))
]

module _ (nmax v i : ℕ) (rest : List ℕ) (f : IsFirst nmax v 1 rest i) where
  first_before : (k : ℕ) → 1 ≤ k → k < i → sum (take (suc k) (v ∷ rest)) < nmax
  first_before zero l m = absurd (omega arith)
  first_before (suc k) l m = omega (arith, f.before k (omega arith))

  first_reached : i < length (v ∷ rest) → nmax ≤ sum (take (suc i) (v ∷ rest))
  first_reached l =
      let e : suc (i - 1) ≡ i = omega (arith, f.from) in rw e at (f.reached (omega arith))

-- What is said of the index `i` that the loop ends with.
abbrev pub IsRank : ℕ → List ℕ → ℕ → Type 0
IsRank nmax values i =
    (1 ≤ i)
    × (i ≤ length values)
    × ((k : ℕ) → 1 ≤ k → k < i → sum (take (suc k) values) < nmax)
    × (i < length values → nmax ≤ sum (take (suc i) values))

pub rank_index-IsRank :
    (nmax : ℕ) (values : List ℕ)
    → values ≢ []
    → sum values < u64_mod
    → (i : ℕ) × (rank_index nmax values ≡ some i) × IsRank nmax values i
unfolding rank_index
rank_index-IsRank nmax [] ne h = absurd (ne refl)
rank_index-IsRank nmax (v ∷ rest) ne h =
    let f = find_rank-IsFirst nmax v 1 rest (omega arith) in
    let bounds : (1 ≤ find_rank nmax v 1 rest) × (find_rank nmax v 1 rest ≤ length (v ∷ rest)) =
      omega arith in
    (
      find_rank nmax v 1 rest,
      refl,
      (bounds.0, bounds.1, first_before nmax v _ rest f, first_reached nmax v _ rest f),
    )

-- On a histogram that is not empty, whose counters add up without wrapping, sb_percentile_calculate
-- returns the value that stands for the first bucket, bucket 0 left aside, up to which at least the
-- requested number of measurements is counted (the index past the end if there is none), and leaves
-- the counters as they are.
pub calculate_lem :
    (d : Doubles) (p : Percentile d) (percent : d.Double)
    → p.values ≢ []
    → sum p.values < u64_mod
    → p.total ≢ 0
    → (i : ℕ) × (calculate d p percent
        ≡ some (
          d.exp (d.add (d.div (d.of_unsigned i) p.range_mult) p.range_deduct),
          record p { tmp = p.values },
        ))
      × IsRank (rank d p percent) p.values i
unfolding calculate
calculate_lem d p percent ne small full =
    let (i, q, r) = rank_index-IsRank (rank d p percent) p.values ne small in
    (i, ground (arith, q), r)
