-- ===== src/Runner/Setup/Tests.antt =====
-- The checkpoints with an insertion sort for qsort.
use my_sqltutorials.Prelude.{
  ℕ, ◌+◌, ◌-◌, ◌*◌, ◌/◌, ◌≤◌, ◌≡◌, inl, inr, refl, ◌∙◌, arith, false, none, some, List, [], ◌∷◌,
  leb, ◌&&◌, if◌then◌else◌, Bool-cases, Chars,
}
use my_sqltutorials.Prelude.Int.{ℤ, pos}
use my_sqltutorials.Percentile.Histogram.{count}
use my_sqltutorials.Runner.Setup.{Library, parse_checkpoint, parse_checkpoints}
use my_sqltutorials.Runner.Setup.Checkpoints.{IsSorted, Sorts, parse_checkpoints-IsSorted}

unfoldable pub insert : ℕ → List ℕ → List ℕ
insert a [] = a ∷ []
insert a (b ∷ xs) = let rest = insert a xs in if leb a b then a ∷ b ∷ xs else b ∷ rest

unfoldable pub sort : List ℕ → List ℕ
sort [] = []
sort (a ∷ xs) = insert a (sort xs)

-- `b` stands before a sorted list.
abbrev Starts : ℕ → List ℕ → Type 0
Starts b [] = Unit {0}
Starts b (a ∷ xs) = b ≤ a

cons-IsSorted : (b : ℕ) (xs : List ℕ) → Starts b xs → IsSorted xs → IsSorted (b ∷ xs)
cons-IsSorted b [] h s = tt
cons-IsSorted b (a ∷ xs) h s = (h, s)

tail-IsSorted : (b : ℕ) (xs : List ℕ) → IsSorted (b ∷ xs) → Starts b xs × IsSorted xs
tail-IsSorted b [] s = (tt, tt)
tail-IsSorted b (a ∷ xs) s = s

insert-Starts : (a b : ℕ) (xs : List ℕ) → b ≤ a → Starts b xs → Starts b (insert a xs)
unfolding insert
insert-Starts a b [] h s = h
insert-Starts a b (c ∷ xs) h s = ground arith

insert-IsSorted : (a : ℕ) (xs : List ℕ) → IsSorted xs → IsSorted (insert a xs)
unfolding insert
insert-IsSorted a [] s = tt
insert-IsSorted a (b ∷ xs) s = elim (Bool-cases (leb a b)) [
  | inl e ↦ rw e (ground arith, s)
  | inr e ↦ rw e (
      cons-IsSorted b (insert a xs) (insert-Starts a b xs (ground arith) (tail-IsSorted b xs s).0)
        (insert-IsSorted a xs (tail-IsSorted b xs s).1))
]

insert-count : (i a : ℕ) (xs : List ℕ) → count i (insert a xs) ≡ count i (a ∷ xs)
unfolding insert
insert-count i a [] = refl
insert-count i a (b ∷ xs) = elim (Bool-cases (leb a b)) [
  | inl e ↦ rw e refl
  | inr e ↦ rw e (omega (arith, insert-count i a xs))
]

sort-IsSorted : (xs : List ℕ) → IsSorted (sort xs) × ((i : ℕ) → count i (sort xs) ≡ count i xs)
unfolding sort
sort-IsSorted [] = (tt, λ i. refl)
sort-IsSorted (a ∷ xs) =
    let (s, c) = sort-IsSorted xs in
    (insert-IsSorted a (sort xs) s, λ i. insert-count i a (sort xs) ∙ omega (arith, c i))

abbrev pub digits : ℕ → Chars → ℤ × Chars
digits n [] = (pos n, [])
digits n (c ∷ s) =
    let more = digits (10 * n + (c - 48)) s in if leb 48 c && leb c 57 then more else (pos n, c ∷ s)

abbrev pub c_library : Library
c_library = record {
  strtol = digits 0;
  strcmp = λ s t. false;
  strcasecmp = λ s t. false;
  percent_of = λ a b. a * b / 100;
  qsort = λ cmp xs. sort xs;
  files = λ name. none;
}

c_library-Sorts : Sorts (λ cmp xs. sort xs)
c_library-Sorts cmp n xs h b = sort-IsSorted xs

parse_checkpoints-IsSorted_example :
    (cs : List ℕ) × (parse_checkpoints c_library ((51 ∷ 48 ∷ []) ∷ (55 ∷ []) ∷ []) ≡ some cs)
    × IsSorted cs
    × ((i : ℕ) → count i cs ≡ count i (30 ∷ 7 ∷ []))
unfolding parse_checkpoint
parse_checkpoints-IsSorted_example =
    parse_checkpoints-IsSorted c_library ((51 ∷ 48 ∷ []) ∷ (55 ∷ []) ∷ []) (30 ∷ 7 ∷ [])
      c_library-Sorts (refl, (refl, tt)) (omega arith) (omega arith, (omega arith, tt))
