-- ===== src/Workloads/Memory.antt =====
-- tests/memory/sb_memory.c: blocks of `int`s are read or written until the total size is transferred.
-- A block has `memory_block_size / 4` words, as memory_init allocates; sizes do not overflow.
pub mod Transfers
pub mod Access
pub mod Setup
pub mod Run
use my_sqltutorials.Prelude.{
  ℕ, zero, suc, ◌+◌, ◌-◌, ◌*◌, ◌/◌, ◌%◌, ◌^◌, ◌≤◌, ◌<◌, ◌≡◌, ◌≢◌, ◌↔◌, ◌⊎◌, inl, inr, refl, ap, sym,
  ap₂, subst, ◌∙◌, arith, Bool, true, false, not, Option, some, List, [], ◌∷◌, ◌++◌, map, ltb, leb,
  ◌==◌, ◌&&◌, ◌||◌, if◌then◌else◌, Bool-cases, length, min, length-set, length-replicate, get_elem?,
  get_or, set, take, drop, replicate, length-append, get_elem?-set_ne, get_elem?-set_self, foldr,
  Chars,
}
use my_sqltutorials.Prelude.Words.{u32_mod, add32}
use my_sqltutorials.FileIo.Random.{max_rnd}

pub data MemoryScope : Type 0 where
  global local : MemoryScope

pub data MemoryOper : Type 0 where
  none read write : MemoryOper

-- The static variables that memory_init sets.
pub record MemoryConfig : Type 0 where
  pub memory_block_size : ℕ
  pub memory_total_size : ℕ
  pub memory_scope : MemoryScope
  pub memory_oper : MemoryOper
  pub memory_access_rnd : Bool

pub record MemoryState : Type 0 where
  pub total_ops : ℕ
  pub total_bytes : ℕ

-- sb_mem_request_t
pub record MemoryRequest : Type 0 where
  pub block_size : ℕ
  pub scope : MemoryScope
  pub type : MemoryOper

unfoldable pub memory_get_request : MemoryConfig → MemoryState → Option MemoryRequest × MemoryState
memory_get_request c s = if leb c.memory_total_size s.total_bytes then (Option.none, s) else (
  some (record { block_size = c.memory_block_size; scope = c.memory_scope; type = c.memory_oper }),
  record { total_ops = add32 s.total_ops 1; total_bytes = s.total_bytes + c.memory_block_size },
)

-- The global buffer, and that of each thread.
pub record Buffers : Type 0 where
  pub buffer : List ℕ
  pub buffers : List (List ℕ)

-- sb_rnd(), for a value of lrand48() or random().
unfoldable pub sb_rnd : ℕ → ℕ
sb_rnd random = random % max_rnd

-- `out_of_bounds` is an access outside a buffer, or with an index that is no `int`.
pub data Accessed : Type 0 where
  out_of_bounds : Accessed
  unknown_type : Accessed
  accessed : List ℕ → Accessed

-- The loops of the random access: one random number for all rounds, and `idx` the whole part of the
-- double that each round converts to an `int`; `tmp` is zero when written.
unfoldable pub write_rounds : (rounds idx : ℕ) → List ℕ → Accessed
write_rounds zero idx buf = accessed buf
write_rounds (suc rounds) idx buf =
    let rest = write_rounds rounds idx (set buf idx 0) in
    if ltb idx (2 ^ 31) && ltb idx (length buf) then rest else out_of_bounds

unfoldable pub read_rounds : (rounds idx : ℕ) → List ℕ → Accessed
read_rounds zero idx buf = accessed buf
read_rounds (suc rounds) idx buf =
    let rest = read_rounds rounds idx buf in
    if ltb idx (2 ^ 31) && ltb idx (length buf) then rest else out_of_bounds

-- The sequential write: every word of the block.
unfoldable pub write_words : List ℕ → List ℕ
write_words [] = []
write_words (w ∷ buf) = 0 ∷ write_words buf

-- The access of memory_execute_request to the buffer of the request. `scale` is the whole part of the
-- product of doubles that the index is converted from, `random` what sb_rnd() takes its value of.
unfoldable pub access :
    MemoryConfig → (scale : ℕ → ℕ → ℕ) → (random : ℕ) → MemoryOper → List ℕ → Accessed
unfolding sb_rnd
access c scale random type buf =
    let idx = scale (sb_rnd random) (c.memory_block_size / 4) in
    if c.memory_access_rnd
    then elim type [
      | write ↦ write_rounds c.memory_block_size idx buf
      | read ↦ read_rounds c.memory_block_size idx buf
      | none ↦ unknown_type
    ]
    else elim type [
      | none ↦ accessed buf
      | write ↦ accessed (write_words buf)
      | read ↦ accessed buf
    ]

unfoldable pub select_buffer : MemoryScope → ℕ → Buffers → List ℕ
select_buffer global thread_id b = b.buffer
select_buffer local thread_id b = get_or b.buffers thread_id []

unfoldable pub store_buffer : MemoryScope → ℕ → List ℕ → Buffers → Buffers
store_buffer global thread_id buf b = record b { buffer = buf }
store_buffer local thread_id buf b = record b { buffers = set b.buffers thread_id buf }

-- The flag is the result 1 for an unknown type; `none` is an access outside a buffer.
unfoldable pub memory_execute_request :
    MemoryConfig
    → (scale : ℕ → ℕ → ℕ) → (random : ℕ) → MemoryRequest
    → ℕ
    → Buffers
    → Option (Bool × Buffers)
memory_execute_request c scale random r thread_id b =
    elim (access c scale random r.type (select_buffer r.scope thread_id b)) [
      | out_of_bounds ↦ Option.none
      | unknown_type ↦ some (true, b)
      | accessed buf ↦ some (false, store_buffer r.scope thread_id buf b)
    ]
