-- ===== src/FileIo/Setup/Created.antt =====
-- The files that create_files leaves, and what the accepted options are like.
use my_sqltutorials.Prelude.{
  ℕ, zero, suc, ◌+◌, ◌<◌, ◌≤◌, ◌≡◌, ◌⊎◌, refl, ◌∙◌, arith, true, Option, none, some, List, [], ◌∷◌,
  ltb, Bool-cases, ltb→lt, inl, inr, sum,
}
use my_sqltutorials.FileIo.Setup.{FileSystem, Filling, fill_file, create_files}

-- Every call of write writes the whole block.
abbrev pub AllWhole : ℕ → List (Option ℕ) → Type 0
AllWhole block [] = Unit {0}
AllWhole block (w ∷ writes) = (w ≡ some block) × AllWhole block writes

-- A file that was filled from a state on.
record IsFilled (block file_size : ℕ) (f g : Filling) : Type 0 where
  exact : g.file_length ≡ g.offset
  reached : file_size ≤ g.offset
  grown : f.offset ≤ g.offset
  close : (g.offset ≡ f.offset) ⊎ (g.offset < file_size + block)
  counted : g.written + f.offset ≡ f.written + g.offset

module _ (block file_size : ℕ) (positive : 0 < block) where
  abbrev next_block : Filling → Filling
  next_block f = record {
    offset = f.offset + block;
    written = f.written + block;
    file_length = f.file_length + block;
  }

  next-IsFilled :
      (f g : Filling)
      → f.offset < file_size
      → IsFilled block file_size (next_block f) g
      → IsFilled block file_size f g
  next-IsFilled f g l h = ground arith

  stays :
      (f : Filling) → f.file_length ≡ f.offset → file_size ≤ f.offset → IsFilled block file_size f f
  stays f e h = record {
    exact = e;
    reached = h;
    grown = omega arith;
    close = inl refl;
    counted = omega arith;
  }

  fill-IsFilled :
      (fuel : ℕ) (writes : List (Option ℕ)) (f : Filling)
      → AllWhole block writes
      → f.file_length ≡ f.offset
      → file_size < f.offset + fuel
      → 0 < fuel
      → (g : Filling) × (fill_file fuel block file_size writes f ≡ some (true, g))
        × IsFilled block file_size f g
  unfolding fill_file
  fill-IsFilled zero writes f w e l p = absurd (omega arith)
  fill-IsFilled (suc fuel) [] f w e l p = elim (Bool-cases (ltb f.offset file_size)) [
    | inl m ↦
        let (g, r, h) =
          fill-IsFilled fuel [] (next_block f) tt (omega arith) (omega (arith, ltb→lt _ _ m))
            (omega (arith, ltb→lt _ _ m)) in
        (g, rw m r, next-IsFilled f g (ltb→lt _ _ m) h)
    | inr m ↦ (f, rw m, stays f e (ground arith))
  ]
  fill-IsFilled (suc fuel) (none ∷ writes) f w e l p = absurd (ground (arith, w.0))
  fill-IsFilled (suc fuel) (some n ∷ writes) f w e l p =
      elim (Bool-cases (ltb f.offset file_size)) [
        | inl m ↦
            let (g, r, h) =
              fill-IsFilled fuel writes (next_block f) w.1 (omega arith)
                (omega (arith, ltb→lt _ _ m)) (omega (arith, ltb→lt _ _ m)) in
            let same : n ≡ block = ground (arith, w.0) in
            (g, rw (m, same) r, next-IsFilled f g (ltb→lt _ _ m) h)
        | inr m ↦ (f, rw m, stays f e (ground arith))
      ]

shown :
    (block file_size : ℕ) (f g : Filling)
    → IsFilled block file_size f g
    → (g.file_length ≡ f.offset) ⊎ (g.file_length < file_size + block)
shown block file_size f g h = elim h.close [
  | inl e ↦ inl (h.exact ∙ e)
  | inr l ↦ inr (omega (arith, h.exact))
]

-- The system opens every file, and writes whole blocks.
abbrev pub AllWork : ℕ → List FileSystem → Type 0
AllWork block [] = Unit {0}
AllWork block (s ∷ files) = ((s.opens ≡ true) × AllWhole block s.writes) × AllWork block files

-- Each file is as long as wanted: as long as before, or longer by less than a block.
abbrev pub AllFilled : (block file_size : ℕ) → List FileSystem → List ℕ → Type 0
AllFilled block file_size [] [] = Unit {0}
AllFilled block file_size [] (l ∷ lengths) = ⊥
AllFilled block file_size (s ∷ files) [] = ⊥
AllFilled block file_size (s ∷ files) (l ∷ lengths) =
    ((file_size ≤ l) × (s.length_before ≤ l) × ((l ≡ s.length_before) ⊎ (l < file_size + block)))
    × AllFilled block file_size files lengths

abbrev pub lengths_before : List FileSystem → List ℕ
lengths_before [] = []
lengths_before (s ∷ files) = s.length_before ∷ lengths_before files

-- Where every file can be opened and every write is whole, the loops end, with more fuel than a
-- file has bytes: each file is at least as long as wanted, by less than a block where it was
-- written to, and the number of bytes written is the growth of the files.
pub create_files-AllFilled :
    (fuel block file_size : ℕ) (files : List FileSystem) (written : ℕ)
    → 0 < block
    → file_size < fuel
    → AllWork block files
    → (lengths : List ℕ) × (total : ℕ) × (create_files fuel block file_size files written
        ≡ some (lengths, total))
      × AllFilled block file_size files lengths
      × (total + sum (lengths_before files) ≡ written + sum lengths)
unfolding create_files
create_files-AllFilled fuel block file_size [] written p l w = ([], written, refl, tt, refl)
create_files-AllFilled fuel block file_size (s ∷ files) written p l w =
    let start : Filling = record {
      offset = s.length_before;
      written = written;
      file_length = s.length_before;
    } in
    let (g, r, h) =
      fill-IsFilled block file_size p fuel s.writes start w.0.1 refl (omega arith) (omega arith) in
    let (lengths, total, r', all, t) =
      create_files-AllFilled fuel block file_size files g.written p l w.1 in
    (
      g.file_length ∷ lengths,
      total,
      rw (w.0.0, r, r'),
      (
        (
          omega (arith, h.exact, h.reached),
          omega (arith, h.exact, h.grown),
          shown block file_size start g h,
        ),
        all,
      ),
      omega (arith, t, h.counted, h.exact),
    )
