-- ===== src/Runner/Setup/Checkpoints.antt =====
-- The checkpoints of a run: how many there can be, and their order.
use my_sqltutorials.Prelude.{
  ℕ, ◌+◌, ◌-◌, ◌^◌, ◌≤◌, ◌<◌, ◌≡◌, ◌↔◌, inl, inr, refl, ap, sym, ◌∙◌, arith, Bool, true, false,
  Option, none, some, List, [], ◌∷◌, ◌++◌, ltb, if◌then◌else◌, Option-cases, length, length-append,
  Chars,
}
use my_sqltutorials.Prelude.{append_nil, append_assoc}
use my_sqltutorials.Prelude.Int.{ℤ, pos, negsuc, ◌≤ℤ◌}
use my_sqltutorials.Percentile.Histogram.{count}
use my_sqltutorials.Runner.Setup.{
  Library, checkpoint_cmp, parse_checkpoint, add_checkpoints, parse_checkpoints, max_checkpoints,
}

abbrev pub IsSorted : List ℕ → Type 0
IsSorted [] = Unit {0}
IsSorted (a ∷ []) = Unit {0}
IsSorted (a ∷ b ∷ xs) = (a ≤ b) × IsSorted (b ∷ xs)

-- The elements satisfy a bound.
abbrev pub AllBelow : ℕ → List ℕ → Type 0
AllBelow n [] = Unit {0}
AllBelow n (a ∷ xs) = (a < n) × AllBelow n xs

-- On numbers below `n`, a comparison gives at most zero for exactly those that are in order.
abbrev pub Compares : (ℕ → ℕ → ℤ) → ℕ → Type 0
Compares cmp n = (a b : ℕ) → a < n → b < n → (cmp a b ≤ℤ pos 0) ↔ (a ≤ b)

-- What C says of qsort: with a comparison that compares the elements, it sorts them.
abbrev pub Sorts : ((ℕ → ℕ → ℤ) → List ℕ → List ℕ) → Type 0
Sorts qsort =
    (cmp : ℕ → ℕ → ℤ) (n : ℕ) (xs : List ℕ)
    → Compares cmp n
    → AllBelow n xs
    → IsSorted (qsort cmp xs) × ((i : ℕ) → count i (qsort cmp xs) ≡ count i xs)

-- The comparison of checkpoints works below 2^31, since the difference then has the right sign.
pub checkpoint_cmp-Compares : Compares checkpoint_cmp (2 ^ 31)
unfolding checkpoint_cmp
checkpoint_cmp-Compares a b h k = ground arith

-- It fails above: it puts 2^31 before 0.
pub checkpoint_cmp-wrong : checkpoint_cmp (2 ^ 31) 0 ≡ negsuc (2 ^ 31 - 1)
unfolding checkpoint_cmp
checkpoint_cmp-wrong = refl

module _ (l : Library) where
  -- The numbers of a list of checkpoints.
  abbrev pub Parses : List Chars → List ℕ → Type 0
  Parses [] [] = Unit {0}
  Parses (v ∷ vs) (c ∷ cs) = (parse_checkpoint l v ≡ some c) × Parses vs cs
  Parses _ _ = ⊥

  add-Parses :
      (vs : List Chars) (cs ps : List ℕ)
      → Parses vs ps
      → length cs + length vs ≤ max_checkpoints
      → add_checkpoints l cs vs ≡ some (cs ++ ps)
  unfolding add_checkpoints
  add-Parses [] cs [] p h = ap some (sym (append_nil cs))
  add-Parses [] cs (c ∷ ps) p h = absurd p
  add-Parses (v ∷ vs) cs [] p h = absurd p
  add-Parses (v ∷ vs) cs (c ∷ ps) p h =
      let fits : ltb max_checkpoints (length cs + 1) ≡ false = ground arith in
      rw (p.0, add_checkpoints)
        (rw fits (
          add-Parses vs (cs ++ c ∷ []) ps p.1 (omega (arith, length-append cs (c ∷ [])))
          ∙ ap some (append_assoc cs (c ∷ []) ps)))

  refused :
      (b : Bool) (o : Option (List ℕ)) → (b ≡ false → o ≡ none) → (if b then none else o) ≡ none
  refused true o f = refl
  refused false o f = f refl

  add-too_many :
      (vs : List Chars) (cs : List ℕ)
      → length cs ≤ max_checkpoints
      → max_checkpoints < length cs + length vs
      → add_checkpoints l cs vs ≡ none
  unfolding add_checkpoints
  add-too_many [] cs k h = absurd (omega arith)
  add-too_many (v ∷ vs) cs k h = elim (Option-cases (parse_checkpoint l v)) [
    | inl e ↦ rw (e, add_checkpoints) refl
    | inr (c, e) ↦
        rw (e, add_checkpoints)
          (refused (ltb max_checkpoints (length cs + 1)) _ (λ fits.
            add-too_many vs (cs ++ c ∷ []) (ground (arith, length-append cs (c ∷ [])))
              (omega (arith, length-append cs (c ∷ [])))))
  ]

  -- Up to MAX_CHECKPOINTS valid checkpoints are accepted, and they are sorted: every number occurs as
  -- often as before, in order. It is assumed that qsort does what C says, and that the checkpoints
  -- are below 2^31.
  pub parse_checkpoints-IsSorted :
      (vs : List Chars) (ps : List ℕ)
      → Sorts l.qsort
      → Parses vs ps
      → length vs ≤ max_checkpoints
      → AllBelow (2 ^ 31) ps
      → (cs : List ℕ) × (parse_checkpoints l vs ≡ some cs)
        × IsSorted cs
        × ((i : ℕ) → count i cs ≡ count i ps)
  unfolding parse_checkpoints
  parse_checkpoints-IsSorted vs [] q p h b =
      ([], rw (add-Parses vs [] [] p (omega arith), parse_checkpoints) refl, tt, λ i. refl)
  parse_checkpoints-IsSorted vs (c ∷ ps) q p h b =
      let (s, k) = q checkpoint_cmp (2 ^ 31) (c ∷ ps) checkpoint_cmp-Compares b in
      let filled : ltb 0 (length (c ∷ ps)) ≡ true = ground arith in
      (
        l.qsort checkpoint_cmp (c ∷ ps),
        rw (add-Parses vs [] (c ∷ ps) p (omega arith), parse_checkpoints) (rw filled refl),
        s,
        k,
      )

  -- More than MAX_CHECKPOINTS values are refused, whatever they are.
  pub parse_checkpoints-too_many :
      (vs : List Chars) → max_checkpoints < length vs → parse_checkpoints l vs ≡ none
  unfolding parse_checkpoints
  parse_checkpoints-too_many vs h =
      rw (add-too_many vs [] (omega arith) (omega arith), parse_checkpoints) refl
