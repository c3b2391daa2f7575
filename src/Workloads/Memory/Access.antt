-- ===== src/Workloads/Memory/Access.antt =====
-- Where the memory test reads and writes.
use my_sqltutorials.Prelude.{
  ℕ, zero, suc, ◌+◌, ◌-◌, ◌*◌, ◌/◌, ◌^◌, ◌<◌, ◌≤◌, ◌≡◌, ◌≢◌, ◌⊎◌, inl, inr, refl, ap, ◌∙◌, arith,
  true, false, none, some, List, [], ◌∷◌, if◌then◌else◌, Bool-cases, length, length-set, get_elem?,
  get_or-set, set, get_elem?-set_ne,
}
use my_sqltutorials.FileIo.Random.{max_rnd}
use my_sqltutorials.Workloads.Memory.{
  sb_rnd, MemoryScope, MemoryOper, MemoryConfig, MemoryRequest, Buffers, out_of_bounds,
  unknown_type, accessed, write_rounds, read_rounds, write_words, access, select_buffer,
  store_buffer, memory_execute_request,
}

write_rounds-length :
    (rounds idx : ℕ) (buf : List ℕ)
    → idx < length buf
    → length buf ≤ 2 ^ 31
    → (buf' : List ℕ) × (write_rounds rounds idx buf ≡ accessed buf') × (length buf' ≡ length buf)
unfolding write_rounds
write_rounds-length zero idx buf h l = (buf, refl, refl)
write_rounds-length (suc rounds) idx buf h l =
    let e = length-set buf idx 0 in
    let (buf', p, q) =
      write_rounds-length rounds idx (set buf idx 0) (omega (arith, e)) (omega (arith, e)) in
    let s : idx < 2 ^ 31 = omega arith in (buf', ground (arith, p), q ∙ e)

read_rounds-same :
    (rounds idx : ℕ) (buf : List ℕ)
    → idx < length buf
    → length buf ≤ 2 ^ 31
    → read_rounds rounds idx buf ≡ accessed buf
unfolding read_rounds
read_rounds-same zero idx buf h l = refl
read_rounds-same (suc rounds) idx buf h l =
    let s : idx < 2 ^ 31 = omega arith in ground (arith, read_rounds-same rounds idx buf h l)

write_words-length : (buf : List ℕ) → length (write_words buf) ≡ length buf
unfolding write_words
write_words-length [] = refl
write_words-length (w ∷ buf) = ap suc (write_words-length buf)

-- The buffer that a request is for is allocated with the words of a block, of at least one word.
pub record IsAllocated (c : MemoryConfig) (r : MemoryRequest) (thread_id : ℕ) (b : Buffers)
    : Type 0 where
  pub words : length (select_buffer r.scope thread_id b) ≡ c.memory_block_size / 4
  pub some_word : 0 < c.memory_block_size / 4
  pub own : r.scope ≡ MemoryScope.local → thread_id < length b.buffers

-- What the two roundings of `(double) rand / (double) SB_MAX_RND * (double) n` add to the quotient is
-- at most n / 2^50.
abbrev pub IsScale : (ℕ → ℕ → ℕ) → Type 0
IsScale scale =
    (rand n : ℕ) → rand < max_rnd → n < 2 ^ 53 → scale rand n * max_rnd ≤ rand * n + n / 2 ^ 20

-- The random index is below the number of words.
scale_lem :
    (scale : ℕ → ℕ → ℕ) (random n : ℕ)
    → IsScale scale
    → 0 < n
    → n ≤ 2 ^ 31
    → scale (sb_rnd random) n < n
unfolding sb_rnd
scale_lem scale random n h p l =
    let below : sb_rnd random < max_rnd = omega arith in
    let product : sb_rnd random * n ≤ (max_rnd - 1) * n = grind arith in
    omega (arith, h (sb_rnd random) n below (omega arith), product)

access-length :
    (c : MemoryConfig) (scale : ℕ → ℕ → ℕ) (random : ℕ) (type : MemoryOper) (buf : List ℕ)
    → IsScale scale
    → c.memory_block_size / 4 ≤ 2 ^ 31
    → length buf ≡ c.memory_block_size / 4
    → 0 < c.memory_block_size / 4
    → (c.memory_access_rnd ≡ false) ⊎ (type ≢ MemoryOper.none)
    → (buf' : List ℕ) × (access c scale random type buf ≡ accessed buf')
      × (length buf' ≡ length buf)
unfolding access sb_rnd
access-length c scale random MemoryOper.write buf h s e p k =
    let idx = scale (sb_rnd random) (c.memory_block_size / 4) in
    let inside : idx < length buf =
      omega (arith, scale_lem scale random (c.memory_block_size / 4) h p s) in
    elim (Bool-cases c.memory_access_rnd) [
      | inl rnd ↦
          (let (buf', x, y) =
              write_rounds-length c.memory_block_size idx buf inside (omega arith) in
            (
              buf',
              ap
                    (λ t.
                      if t
                      then write_rounds c.memory_block_size idx buf
                      else accessed (write_words buf))
                    rnd
                  ∙ x,
              y,
            ))
      | inr seq ↦ (
        write_words buf,
        ap (λ t. if t then write_rounds c.memory_block_size idx buf else accessed (write_words buf))
            seq,
        write_words-length buf,
      )
    ]
access-length c scale random MemoryOper.read buf h s e p k =
    let idx = scale (sb_rnd random) (c.memory_block_size / 4) in
    let inside : idx < length buf =
      omega (arith, scale_lem scale random (c.memory_block_size / 4) h p s) in
    let same = read_rounds-same c.memory_block_size idx buf inside (omega arith) in
    (
      buf,
      elim (Bool-cases c.memory_access_rnd) [ inl rnd ↦ rw rnd same | inr seq ↦ rw seq refl ],
      refl,
    )
access-length c scale random MemoryOper.none buf h s e p (inl seq) = (buf, ground arith, refl)
access-length c scale random MemoryOper.none buf h s e p (inr ne) = absurd (ne refl)

stored :
    (scope : MemoryScope) (thread_id : ℕ) (buf : List ℕ) (b : Buffers)
    → (scope ≡ MemoryScope.local → thread_id < length b.buffers)
    → (select_buffer scope thread_id (store_buffer scope thread_id buf b) ≡ buf)
      × (length (store_buffer scope thread_id buf b).buffers ≡ length b.buffers)
      × ((j : ℕ)
          → thread_id ≢ j
          → get_elem? (store_buffer scope thread_id buf b).buffers j ≡ get_elem? b.buffers j)
unfolding select_buffer store_buffer
stored MemoryScope.global thread_id buf b h = (refl, refl, λ j ne. refl)
stored MemoryScope.local thread_id buf b h = (
  get_or-set b.buffers thread_id thread_id buf [] (h refl) ∙ ground arith,
  length-set b.buffers thread_id buf,
  λ j ne. get_elem?-set_ne b.buffers thread_id j buf ne,
)

-- Where the buffer is allocated with one to 2^31 words: the
-- accesses of a request, of any kind but none with random access, stay inside the buffer and
-- succeed; the buffer keeps its length, and those of the other threads, as many as before, do not
-- change.
pub memory_execute-IsAllocated :
    (c : MemoryConfig) (scale : ℕ → ℕ → ℕ) (random : ℕ) (r : MemoryRequest) (thread_id : ℕ)
    (b : Buffers)
    → IsScale scale
    → c.memory_block_size / 4 ≤ 2 ^ 31
    → IsAllocated c r thread_id b
    → (c.memory_access_rnd ≡ false) ⊎ (r.type ≢ MemoryOper.none)
    → (b' : Buffers) × (memory_execute_request c scale random r thread_id b ≡ some (false, b'))
      × IsAllocated c r thread_id b'
      × (length b'.buffers ≡ length b.buffers)
      × ((j : ℕ) → thread_id ≢ j → get_elem? b'.buffers j ≡ get_elem? b.buffers j)
unfolding memory_execute_request
memory_execute-IsAllocated c scale random r thread_id b h s a k =
    let (buf, e, l) =
      access-length c scale random r.type (select_buffer r.scope thread_id b) h s a.words
        a.some_word k in
    let (same, count, others) = stored r.scope thread_id buf b a.own in
    (
      store_buffer r.scope thread_id buf b,
      ap
          (λ x. elim x [
            | out_of_bounds ↦ none
            | unknown_type ↦ some (true, b)
            | accessed buf' ↦ some (false, store_buffer r.scope thread_id buf' b)
          ])
          e,
      record {
        words = ap length same ∙ l ∙ a.words;
        some_word = a.some_word;
        own = λ z. omega (arith, count, a.own z);
      },
      count,
      others,
    )
