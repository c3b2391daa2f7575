-- ===== src/FileIo/Buffer.antt =====
-- file_fill_buffer and file_validate_buffer: a block is random bytes, a checksum of them and its
-- offset. `crc32` comes from outside the file, and memory is the list of the bytes from `buf` on.
use my_sqltutorials.Prelude.{
  ℕ, zero, suc, ◌+◌, ◌-◌, ◌*◌, ◌/◌, ◌%◌, ◌^◌, ◌≤◌, ◌<◌, ◌≡◌, refl, ap, sym, ◌∙◌, arith, not, List,
  [], ◌∷◌, ◌++◌, ◌==◌, if◌then◌else◌, length, take, drop, length-append,
}
use native.Mathlib.Nat.{mod-eq_of_lt}
use my_sqltutorials.Prelude.Words.{u32_mod, u64_mod, sub32}

-- FILE_CHECKSUM_LENGTH + FILE_OFFSET_LENGTH
abbrev pub trailer_length : ℕ
trailer_length = 12

-- The `n` low bytes of a word, the least significant first.
abbrev bytes_of : ℕ → ℕ → List ℕ
bytes_of zero w = []
bytes_of (suc n) w = w % 256 ∷ bytes_of n (w / 256)

-- The word that the first `n` bytes hold.
abbrev word_at : ℕ → List ℕ → ℕ
word_at zero bs = 0
word_at (suc n) [] = 0
word_at (suc n) (b ∷ bs) = b + 256 * word_at n bs

-- Overwrites the first bytes of a memory.
abbrev store : List ℕ → List ℕ → List ℕ
store [] mem = mem
store (b ∷ bs) [] = []
store (b ∷ bs) (m ∷ mem) = b ∷ store bs mem

-- The bytes that the loop writes.
abbrev low_bytes : List ℕ → List ℕ
low_bytes [] = []
low_bytes (r ∷ rands) = r % 256 ∷ low_bytes rands

-- `rands` are the results of `sb_rnd()`.
unfoldable pub file_fill_buffer : (List ℕ → ℕ) → List ℕ → (len offset : ℕ) → List ℕ → List ℕ
file_fill_buffer crc32 rands len offset buf =
    let i = sub32 len trailer_length in
    let filled = store (low_bytes (take i rands)) buf in
    let summed = take i filled ++ store (bytes_of 4 (crc32 (take i filled))) (drop i filled) in
    take (i + 4) summed ++ store (bytes_of 8 offset) (drop (i + 4) summed)

unfoldable pub file_validate_buffer : (List ℕ → ℕ) → List ℕ → (len offset : ℕ) → ℕ
file_validate_buffer crc32 buf len offset =
    let cs_offset = sub32 len trailer_length in
    let checksum = crc32 (take cs_offset buf) in
    if not (checksum == word_at 4 (drop cs_offset buf))
    then 1
    else if not (offset == word_at 8 (drop (cs_offset + 4) buf))
    then 1
    else 0

store-length : (bs mem : List ℕ) → length (store bs mem) ≡ length mem
store-length [] mem = refl
store-length (b ∷ bs) [] = refl
store-length (b ∷ bs) (m ∷ mem) = ap suc (store-length bs mem)

take-append : (n : ℕ) (xs ys : List ℕ) → length xs ≡ n → take n (xs ++ ys) ≡ xs
take-append zero [] ys h = refl
take-append zero (x ∷ xs) ys h = absurd (omega arith)
take-append (suc n) [] ys h = absurd (omega arith)
take-append (suc n) (x ∷ xs) ys h = ap (λ zs. x ∷ zs) (take-append n xs ys (omega arith))

drop-append : (n : ℕ) (xs ys : List ℕ) → length xs ≡ n → drop n (xs ++ ys) ≡ ys
drop-append zero [] ys h = refl
drop-append zero (x ∷ xs) ys h = absurd (omega arith)
drop-append (suc n) [] ys h = absurd (omega arith)
drop-append (suc n) (x ∷ xs) ys h = drop-append n xs ys (omega arith)

length-take : (n : ℕ) (xs : List ℕ) → n ≤ length xs → length (take n xs) ≡ n
length-take zero xs h = refl
length-take (suc n) [] h = absurd (omega arith)
length-take (suc n) (x ∷ xs) h = ap suc (length-take n xs (omega arith))

length-drop : (n : ℕ) (xs : List ℕ) → length (drop n xs) ≡ length xs - n
length-drop zero xs = omega arith
length-drop (suc n) [] = omega arith
length-drop (suc n) (x ∷ xs) = length-drop n xs ∙ omega arith

mod_step : (w m : ℕ) → 0 < m → w % 256 + 256 * (w / 256 % m) ≡ w % (256 * m)
mod_step w m h = grind arith

pow_pos : (n : ℕ) → 0 < 256 ^ n
pow_pos zero = omega arith
pow_pos (suc n) = grind (arith, pow_pos n)

-- A word written to enough memory is read back, up to the width.
word_at-store :
    (n w : ℕ) (mem : List ℕ) → n ≤ length mem → word_at n (store (bytes_of n w) mem) ≡ w % 256 ^ n
word_at-store zero w mem h = grind arith
word_at-store (suc n) w [] h = absurd (omega arith)
word_at-store (suc n) w (m ∷ mem) h =
    grind (arith, word_at-store n (w / 256) mem, mod_step w (256 ^ n) (pow_pos n))

take_prefix :
    (n m : ℕ) (xs ys : List ℕ) → n ≤ m → m ≤ length xs → take n (take m xs ++ ys) ≡ take n xs
take_prefix zero m xs ys h l = refl
take_prefix (suc n) zero xs ys h l = absurd (omega arith)
take_prefix (suc n) (suc m) [] ys h l = absurd (omega arith)
take_prefix (suc n) (suc m) (x ∷ xs) ys h l =
    ap (λ zs. x ∷ zs) (take_prefix n m xs ys (omega arith) (omega arith))

drop_prefix :
    (n m k : ℕ) (xs ys : List ℕ)
    → m ≡ n + k
    → m ≤ length xs
    → drop n (take m xs ++ ys) ≡ take k (drop n xs) ++ ys
drop_prefix zero m k xs ys h l = ap (λ i. take i xs ++ ys) (omega arith)
drop_prefix (suc n) zero k xs ys h l = absurd (omega arith)
drop_prefix (suc n) (suc m) k [] ys h l = absurd (omega arith)
drop_prefix (suc n) (suc m) k (x ∷ xs) ys h l = drop_prefix n m k xs ys (omega arith) (omega arith)

word_at-take : (n : ℕ) (xs ys : List ℕ) → n ≤ length xs → word_at n (take n xs ++ ys) ≡ word_at n xs
word_at-take zero xs ys h = refl
word_at-take (suc n) [] ys h = absurd (omega arith)
word_at-take (suc n) (x ∷ xs) ys h = ap (λ w. x + 256 * w) (word_at-take n xs ys (omega arith))

-- The trailer that a block of `n` bytes gets.
record IsFilled (crc32 : List ℕ → ℕ) (n offset : ℕ) (block : List ℕ) : Type 0 where
  checksum : word_at 4 (drop n block) ≡ crc32 (take n block)
  offset_of : word_at 8 (drop (n + 4) block) ≡ offset

module _ (crc32 : List ℕ → ℕ) (is_word : (bs : List ℕ) → crc32 bs < u32_mod) where
  trailer-IsFilled :
      (n offset : ℕ) (filled : List ℕ)
      → n + 12 ≤ length filled
      → offset < u64_mod
      → let summed = take n filled ++ store (bytes_of 4 (crc32 (take n filled))) (drop n filled) in
        IsFilled crc32 n offset
          (take (n + 4) summed ++ store (bytes_of 8 offset) (drop (n + 4) summed))
  trailer-IsFilled n offset filled h l =
      let body = take n filled in
      let tail = store (bytes_of 4 (crc32 body)) (drop n filled) in
      let summed = body ++ tail in
      let body_length : length body ≡ n = length-take n filled (omega arith) in
      let tail_length : length tail ≡ length filled - n =
        store-length (bytes_of 4 (crc32 body)) (drop n filled) ∙ length-drop n filled in
      let summed_length : length summed ≡ length filled = omega (arith, length-append body tail) in
      let rest = store (bytes_of 8 offset) (drop (n + 4) summed) in
      let block = take (n + 4) summed ++ rest in
      let same : take n block ≡ body =
        take_prefix n (n + 4) summed rest (omega arith) (omega arith)
        ∙ take-append n body tail body_length in
      record {
        checksum =
            ap (word_at 4) (drop_prefix n (n + 4) 4 summed rest refl (omega arith))
            ∙ ap (λ x. word_at 4 (take 4 x ++ rest)) (drop-append n body tail body_length)
            ∙ word_at-take 4 tail rest (omega arith)
            ∙ word_at-store 4 (crc32 body) (drop n filled) (omega (arith, length-drop n filled))
            ∙ mod-eq_of_lt (is_word body)
            ∙ ap crc32 (sym same);
        offset_of =
            ap (word_at 8) (
              drop-append (n + 4) (take (n + 4) summed) rest
                (length-take (n + 4) summed (omega arith)))
            ∙ word_at-store 8 offset (drop (n + 4) summed)
                (omega (arith, length-drop (n + 4) summed))
            ∙ mod-eq_of_lt l;
      }

  -- Where checksums have 32 bits: a block of 12 bytes or more (and below 2^32) that
  -- file_fill_buffer has filled, in a buffer that holds it, passes file_validate_buffer at its
  -- offset (below 2^64), and at no other offset.
  pub validate-fill :
      (rands buf : List ℕ) (len offset other : ℕ)
      → 12 ≤ len
      → len < u32_mod
      → len ≤ length buf
      → offset < u64_mod
      → file_validate_buffer crc32 (file_fill_buffer crc32 rands len offset buf) len other
        ≡ (if offset == other then 0 else 1)
  unfolding file_validate_buffer file_fill_buffer
  validate-fill rands buf len offset other h small fits l =
      let n = sub32 len trailer_length in
      let filled = store (low_bytes (take n rands)) buf in
      let w : IsFilled crc32 n offset _ =
        trailer-IsFilled n offset filled
          (omega (arith, store-length (low_bytes (take n rands)) buf)) l in
      ground (arith, w.checksum, w.offset_of)
