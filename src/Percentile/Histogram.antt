-- ===== src/Percentile/Histogram.antt =====
-- What the histogram holds after any number of updates, in any order.
use my_sqltutorials.Prelude.{
  ℕ, ◌+◌, ◌%◌, ◌<◌, ◌≡◌, refl, ◌∙◌, fun_ext, arith, true, Option, none, some, List, [], ◌∷◌, length,
  map, ◌==◌, if◌then◌else◌, get_or, set, length-set, length-replicate, get_or-set, get_or-replicate,
}
use my_sqltutorials.Prelude.Words.{u64_mod, add64}
use my_sqltutorials.Percentile.{Doubles, Percentile, init, index, count_at, update, reset}

-- How often `i` stands in a list.
abbrev pub count : ℕ → List ℕ → ℕ
count i [] = 0
count i (n ∷ ns) = (if n == i then 1 else 0) + count i ns

module _ {d : Doubles} where
  -- The histogram has counted the buckets `ns`, latest first; the counters wrap at 2^64.
  pub record Counts (p : Percentile d) (ns : List ℕ) : Type 0 where
    pub sized : length p.values ≡ p.size
    pub total_counted : p.total ≡ length ns % u64_mod
    pub each_counted : (i : ℕ) → get_or p.values i 0 ≡ count i ns % u64_mod

  -- The fields that `update` leaves alone.
  pub record SameScale (p q : Percentile d) : Type 0 where
    pub same_size : q.size ≡ p.size
    pub same_min : q.range_min ≡ p.range_min
    pub same_max : q.range_max ≡ p.range_max
    pub same_deduct : q.range_deduct ≡ p.range_deduct
    pub same_mult : q.range_mult ≡ p.range_mult

  pub init-Counts :
      (size : ℕ) (lo hi : d.Double)
      → (p : Percentile d) × (init d true true size lo hi ≡ some p) × Counts p [] × (p.size ≡ size)
  unfolding init
  init-Counts size lo hi = (
    _,
    refl,
    record {
      sized = length-replicate size 0;
      total_counted = refl;
      each_counted = λ i. get_or-replicate size i 0;
    },
    refl,
  )

  pub reset-Counts : (p : Percentile d) → Counts (reset d p) []
  unfolding reset
  reset-Counts p = record {
    sized = length-replicate p.size 0;
    total_counted = refl;
    each_counted = λ i. get_or-replicate p.size i 0;
  }

  count_at-Counts :
      (n : ℕ) (p : Percentile d) (ns : List ℕ)
      → Counts p ns
      → n < p.size
      → (q : Percentile d) × (count_at d n p ≡ some q) × Counts q (n ∷ ns) × SameScale p q
  unfolding count_at
  count_at-Counts n p ns h lt = (
    record p { total = add64 p.total 1; values = set p.values n (add64 (get_or p.values n 0) 1) },
    ground arith,
    record {
      sized = length-set p.values n _ ∙ h.sized;
      total_counted = ground arith;
      each_counted = λ i. ground (
        arith,
        get_or-set p.values n i (add64 (get_or p.values n 0) 1) 0,
        h.each_counted i,
        h.each_counted n,
      );
    },
    ground arith,
  )

  pub update-Counts :
      (p : Percentile d) (value : d.Double) (ns : List ℕ)
      → Counts p ns
      → index d p value < p.size
      → (q : Percentile d) × (update d p value ≡ some q)
        × Counts q (index d p value ∷ ns)
        × SameScale p q
  unfolding update
  update-Counts p value ns h lt = count_at-Counts (index d p value) p ns h lt

  pub index-SameScale :
      {p q : Percentile d} (v : d.Double) → SameScale p q → index d q v ≡ index d p v
  unfolding index
  index-SameScale {p} {q} v s = rw (s.same_min, s.same_max, s.same_deduct, s.same_mult)

  -- A series of measurements.
  unfoldable pub update_all : Percentile d → List d.Double → Option (Percentile d)
  update_all p [] = some p
  update_all p (v ∷ vs) = elim (update d p v) [ none ↦ none | some q ↦ update_all q vs ]

  -- What the rounding of `floor` and the logarithmic scale have to give: a bucket for each value.
  abbrev pub InRange : Percentile d → Type 0
  InRange p = (v : d.Double) → index d p v < p.size

  -- `q` has counted the series `vs` on top of `ns`.
  record CountsSeries (p q : Percentile d) (ns : List ℕ) (vs : List d.Double) : Type 0 where
    total_counted : q.total ≡ (length ns + length vs) % u64_mod
    each_counted :
        (i : ℕ) → get_or q.values i 0 ≡ (count i ns + count i (map (index d p) vs)) % u64_mod

  update_all-CountsSeries :
      (p : Percentile d) (ns : List ℕ) (vs : List d.Double)
      → Counts p ns
      → InRange p
      → (q : Percentile d) × (update_all p vs ≡ some q) × CountsSeries p q ns vs
  unfolding update_all
  update_all-CountsSeries p ns [] h r = (
    p,
    refl,
    record { total_counted = ground arith; each_counted = λ i. ground (arith, h.each_counted i) },
  )
  update_all-CountsSeries p ns (v ∷ vs) h r =
      let (u, e, g, s) = update-Counts p v ns h (r v) in
      let r' : InRange u = λ w. rw (index-SameScale w s, s.same_size) (r w) in
      let (q, e', c) = update_all-CountsSeries u (index d p v ∷ ns) vs g r' in
      let same : index d u ≡ index d p = fun_ext (λ w. index-SameScale w s) in
      (
        q,
        rw (e, update_all) e',
        record {
          total_counted = omega (arith, c.total_counted);
          each_counted = λ i. c.each_counted i ∙ rw same (ground arith);
        },
      )

  -- From a fresh histogram, a series of updates never leaves the array, `total` is the number of
  -- updates and each bucket is the number of values that fall into it (both mod 2^64), where every
  -- value has a bucket.
  pub update_all-histogram :
      (p : Percentile d) (vs : List d.Double)
      → Counts p []
      → InRange p
      → (q : Percentile d) × (update_all p vs ≡ some q)
        × (q.total ≡ length vs % u64_mod)
        × ((i : ℕ) → get_or q.values i 0 ≡ count i (map (index d p) vs) % u64_mod)
  update_all-histogram p vs h r =
      let (q, e, c) = update_all-CountsSeries p [] vs h r in
      (q, e, omega (arith, c.total_counted), λ i. c.each_counted i ∙ ground arith)
