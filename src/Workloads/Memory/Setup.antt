-- ===== src/Workloads/Memory/Setup.antt =====
-- memory_init of tests/memory/sb_memory.c: the options of the memory test, and its buffers. Which
-- allocations succeed is an argument.
use my_sqltutorials.Prelude.{
  ℕ, zero, suc, ◌+◌, ◌/◌, ◌%◌, ◌<◌, ◌≡◌, refl, arith, Bool, true, false, Option, none, some, List,
  [], ◌∷◌, ◌==◌, if◌then◌else◌, Chars, length, replicate, get_or, length-replicate, ◌>>=◌, >>=-some,
  Bool-cases, inl, inr, subst, ap, some_injective,
}
use my_sqltutorials.Logger.Text.{same_text}
use my_sqltutorials.Workloads.Memory.{MemoryScope, MemoryOper, MemoryConfig, Buffers, select_buffer}

-- What the options have.
pub record MemoryArgs : Type 0 where
  pub block_size : ℕ
  pub total_size : ℕ
  pub scope : Chars
  pub oper : Chars
  pub access_mode : Chars

-- "global"
abbrev pub word_global : Chars
word_global = 103 ∷ 108 ∷ 111 ∷ 98 ∷ 97 ∷ 108 ∷ []

-- "local"
abbrev pub word_local : Chars
word_local = 108 ∷ 111 ∷ 99 ∷ 97 ∷ 108 ∷ []

-- "write"
abbrev pub word_write : Chars
word_write = 119 ∷ 114 ∷ 105 ∷ 116 ∷ 101 ∷ []

-- "read"
abbrev pub word_read : Chars
word_read = 114 ∷ 101 ∷ 97 ∷ 100 ∷ []

-- "none"
abbrev pub word_none : Chars
word_none = 110 ∷ 111 ∷ 110 ∷ 101 ∷ []

-- "seq"
abbrev pub word_seq : Chars
word_seq = 115 ∷ 101 ∷ 113 ∷ []

-- "rnd"
abbrev pub word_rnd : Chars
word_rnd = 114 ∷ 110 ∷ 100 ∷ []

unfoldable pub parse_scope : Chars → Option MemoryScope
parse_scope s =
    if same_text s word_global
    then some MemoryScope.global
    else if same_text s word_local
    then some MemoryScope.local
    else none

unfoldable pub parse_oper : Chars → Option MemoryOper
parse_oper s =
    if same_text s word_write
    then some MemoryOper.write
    else if same_text s word_read
    then some MemoryOper.read
    else if same_text s word_none
    then some MemoryOper.none
    else none

unfoldable pub parse_access_mode : Chars → Option Bool
parse_access_mode s =
    if same_text s word_seq then some false else if same_text s word_rnd then some true else none

-- The loop over the buffers of the threads, from the i-th allocation on.
unfoldable pub allocate_each :
    (allocates : ℕ → Bool) (words num_threads i : ℕ) → Option (List (List ℕ))
allocate_each allocates words zero i = some []
allocate_each allocates words (suc n) i =
    let rest = allocate_each allocates words n (i + 1) in
    if allocates i then rest >>= (λ bs. some (replicate words 0 ∷ bs)) else none

unfoldable pub allocate_scope :
    (allocates : ℕ → Bool) (words num_threads : ℕ) → MemoryScope → Option Buffers
unfolding allocate_each
allocate_scope allocates words num_threads MemoryScope.global =
    some (record { buffer = replicate words 0; buffers = [] })
allocate_scope allocates words num_threads MemoryScope.local = do
  bs ← allocate_each allocates words num_threads 1
  some (record { buffer = []; buffers = bs })

-- The allocation 0 is of the global buffer, or of the array of the buffers.
unfoldable pub allocate :
    (allocates : ℕ → Bool) (words num_threads : ℕ) → MemoryScope → Option Buffers
unfolding allocate_scope
allocate allocates words num_threads scope =
    if allocates 0 then allocate_scope allocates words num_threads scope else none

-- The options that are words.
unfoldable pub parse_options : MemoryArgs → Option (MemoryScope × MemoryOper × Bool)
unfolding parse_scope parse_oper parse_access_mode
parse_options a = do
  scope ← parse_scope a.scope
  oper ← parse_oper a.oper
  access_rnd ← parse_access_mode a.access_mode
  some (scope, oper, access_rnd)

abbrev pub config : MemoryArgs → MemoryScope × MemoryOper × Bool → MemoryConfig
config a (scope, oper, access_rnd) = record {
  memory_block_size = a.block_size;
  memory_total_size = a.total_size;
  memory_scope = scope;
  memory_oper = oper;
  memory_access_rnd = access_rnd;
}

-- From the options on.
unfoldable pub set_up :
    (allocates : ℕ → Bool) (num_threads : ℕ) → MemoryArgs → Option (MemoryConfig × Buffers)
unfolding parse_options allocate
set_up allocates num_threads a = do
  options ← parse_options a
  b ← allocate allocates (a.block_size / 4) num_threads options.0
  some (config a options, b)

-- `none` is the result 1.
unfoldable pub memory_init :
    (allocates : ℕ → Bool) (num_threads : ℕ) → MemoryArgs → Option (MemoryConfig × Buffers)
unfolding set_up
memory_init allocates num_threads a =
    if a.block_size % 4 == 0 then set_up allocates num_threads a else none

-- The buffers of the threads, or the global one, have a number of words.
pub record AreReady (scope : MemoryScope) (words num_threads : ℕ) (b : Buffers) : Type 0 where
  pub sized : (i : ℕ) → i < num_threads → length (select_buffer scope i b) ≡ words
  pub count : scope ≡ MemoryScope.local → length b.buffers ≡ num_threads

abbrev HasBuffers : (words n : ℕ) → List (List ℕ) → Type 0
HasBuffers words n bs = (length bs ≡ n) × ((k : ℕ) → k < n → length (get_or bs k []) ≡ words)

one_more :
    (words n : ℕ) (bs : List (List ℕ))
    → HasBuffers words n bs
    → HasBuffers words (suc n) (replicate words 0 ∷ bs)
one_more words n bs (count, ih) = (ap suc count, each)
  where
    each : (k : ℕ) → k < suc n → length (get_or (replicate words 0 ∷ bs) k []) ≡ words
    each zero h = length-replicate {A = ℕ} words 0
    each (suc k) h = ih k (omega arith)

allocate_each-HasBuffers :
    (allocates : ℕ → Bool) (words n i : ℕ) (bs : List (List ℕ))
    → allocate_each allocates words n i ≡ some bs
    → HasBuffers words n bs
unfolding allocate_each
allocate_each-HasBuffers allocates words zero i bs e =
    subst (HasBuffers words zero) (some_injective e) (refl, λ k h. absurd (omega arith))
allocate_each-HasBuffers allocates words (suc n) i bs e = elim (Bool-cases (allocates i)) [
  | inl t ↦
      let (rest, er, e') =
        >>=-some (allocate_each allocates words n (i + 1)) (λ bs. some (replicate words 0 ∷ bs)) bs
          (rw t at e) in
      subst (HasBuffers words (suc n)) (some_injective e')
        (one_more words n rest (allocate_each-HasBuffers allocates words n (i + 1) rest er))
  | inr f ↦ absurd (ground (arith, e, f))
]

allocate_scope-AreReady :
    (allocates : ℕ → Bool) (words num_threads : ℕ) (scope : MemoryScope) (b : Buffers)
    → allocate_scope allocates words num_threads scope ≡ some b
    → AreReady scope words num_threads b
unfolding allocate_scope select_buffer
allocate_scope-AreReady allocates words num_threads MemoryScope.global b e =
    subst (AreReady MemoryScope.global words num_threads) (some_injective e) (record {
      sized = λ i h. length-replicate {A = ℕ} words 0;
      count = λ z. absurd (ground arith);
    })
allocate_scope-AreReady allocates words num_threads MemoryScope.local b e =
    let (bs, eb, e') =
      >>=-some (allocate_each allocates words num_threads 1)
        (λ bs. some (record { buffer = []; buffers = bs })) b e in
    let (count, sized) = allocate_each-HasBuffers allocates words num_threads 1 bs eb in
    subst (AreReady MemoryScope.local words num_threads) (some_injective e')
      (record { sized = sized; count = λ z. count })

allocate-AreReady :
    (allocates : ℕ → Bool) (words num_threads : ℕ) (scope : MemoryScope) (b : Buffers)
    → allocate allocates words num_threads scope ≡ some b
    → AreReady scope words num_threads b
unfolding allocate
allocate-AreReady allocates words num_threads scope b e = elim (Bool-cases (allocates 0)) [
  | inl t ↦ allocate_scope-AreReady allocates words num_threads scope b (rw t at e)
  | inr f ↦ absurd (ground (arith, e, f))
]

-- What memory_init leaves, where it succeeds.
pub record IsSetUp (a : MemoryArgs) (num_threads : ℕ) (c : MemoryConfig) (b : Buffers)
    : Type 0 where
  pub block : c.memory_block_size ≡ a.block_size
  pub total : c.memory_total_size ≡ a.total_size
  pub whole : c.memory_block_size % 4 ≡ 0
  pub ready : AreReady c.memory_scope (c.memory_block_size / 4) num_threads b

set_up-IsSetUp :
    (allocates : ℕ → Bool) (num_threads : ℕ) (a : MemoryArgs) (c : MemoryConfig) (b : Buffers)
    → a.block_size % 4 ≡ 0
    → set_up allocates num_threads a ≡ some (c, b)
    → IsSetUp a num_threads c b
unfolding set_up
set_up-IsSetUp allocates num_threads a c b whole e =
    let (o, eo, e') =
      >>=-some (parse_options a)
        (λ o. allocate allocates (a.block_size / 4) num_threads o.0 >>= (λ b. some (config a o, b)))
        (c, b) e in
    let (d, ed, e'') =
      >>=-some (allocate allocates (a.block_size / 4) num_threads o.0) (λ b. some (config a o, b))
        (c, b) e' in
    subst (λ (r : MemoryConfig × Buffers). IsSetUp a num_threads r.0 r.1) (some_injective e'')
      (record {
        block = refl;
        total = refl;
        whole = whole;
        ready = allocate-AreReady allocates (a.block_size / 4) num_threads o.0 d ed;
      })

-- A block size of a multiple of 4 bytes, 0 included, is accepted.
pub memory_init-IsSetUp :
    (allocates : ℕ → Bool) (num_threads : ℕ) (a : MemoryArgs) (c : MemoryConfig) (b : Buffers)
    → memory_init allocates num_threads a ≡ some (c, b)
    → IsSetUp a num_threads c b
unfolding memory_init
memory_init-IsSetUp allocates num_threads a c b e = elim (Bool-cases (a.block_size % 4 == 0)) [
  | inl t ↦ set_up-IsSetUp allocates num_threads a c b (ground (arith, t)) (rw t at e)
  | inr f ↦ absurd (ground (arith, e, f))
]
