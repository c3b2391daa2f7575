-- ===== src/FileIo/Random.antt =====
-- file_get_rnd_request: requests at random blocks. The floating point expressions and the results of
-- `sb_rnd()` come from outside: the former are a `Sampling`, the latter a list, in order.
pub mod Bounds
pub mod Exclusion
use my_sqltutorials.Prelude.{
  ℕ, zero, suc, ◌+◌, ◌-◌, ◌/◌, ◌%◌, ◌<◌, Bool, true, false, not, Option, none, some, List, [], ◌∷◌,
  ltb, leb, ◌==◌, ◌&&◌, ◌||◌, if◌then◌else◌, set,
}
use my_sqltutorials.Prelude.Words.{u32_mod, add32}
use my_sqltutorials.FileIo.{FileOp, TestMode, Request, Config, State, Block, is_write, fsync_of}
use my_sqltutorials.FileIo.Sequential.{periodic, is_over, is_sync_due}

-- SB_MAX_RND
abbrev pub max_rnd : ℕ
max_rnd = 0x3fff_ffff

-- `(long long) ((double) randnum / SB_MAX_RND * total_size)`, and the test of the numbers of reads and
-- writes against `file_rw_ratio`.
pub record Sampling : Type 0 where
  pub scale : (randnum total_size : ℕ) → ℕ
  pub below_ratio : (read_ops write_ops : ℕ) → Bool

-- `waits` is the loop that has used up the random numbers given, `division_by_zero` a zero `file_size`.
pub data Outcome : Type 0 where
  gives : Option Request → State → List ℕ → Outcome
  division_by_zero : Outcome
  waits : Outcome

-- Another thread than `thread_id` works on the block; `i` is the number of the first one listed.
unfoldable pub is_busy : (thread_id i file_id pos : ℕ) → List Block → Bool
is_busy thread_id i file_id pos [] = false
is_busy thread_id i file_id pos (b ∷ bs) =
    (not (i == thread_id) && (b.file_id == file_id) && (b.pos == pos))
    || is_busy thread_id (suc i) file_id pos bs

-- The operation of a random test: a combined test keeps the ratio of reads and writes.
unfoldable pub rnd_mode : Sampling → Config → State → TestMode
rnd_mode f c s = elim c.test_mode [
  | TestMode.rnd_rw ↦
      if f.below_ratio s.read_ops s.write_ops then TestMode.rnd_read else TestMode.rnd_write
  | other ↦ other
]

abbrev pub rnd_operation : TestMode → FileOp
rnd_operation TestMode.rnd_write = FileOp.write
rnd_operation _ = FileOp.read

abbrev pub is_rnd_write : TestMode → Bool
is_rnd_write TestMode.rnd_write = true
is_rnd_write TestMode.rnd_rw = true
is_rnd_write TestMode.mixed = true
is_rnd_write _ = false

-- The final fsync requests.
unfoldable pub finish : Config → State → Option Request × State
finish c s =
    if c.file_fsync_end && is_rnd_write c.test_mode && ltb s.fsynced_file2 c.num_files
    then (some (fsync_of s.fsynced_file2), record s { fsynced_file2 = add32 s.fsynced_file2 1 })
    else (none, s)

-- The block that a random number stands for.
abbrev pub sampled : Sampling → Config → ℕ → ℕ
sampled f c randnum =
    let tmppos = f.scale randnum c.total_size in tmppos - tmppos % c.file_block_size

unfoldable pub block_request : Sampling → Config → FileOp → ℕ → Request
block_request f c op randnum = record {
  file_id = sampled f c randnum / c.file_size % u32_mod;
  pos = sampled f c randnum % c.file_size;
  size = c.file_block_size;
  operation = op;
}

-- The bookkeeping of a request that is made.
unfoldable pub take_block : ℕ → Request → State → State
take_block thread_id r s = record s {
  per_thread = set s.per_thread thread_id (record { file_id = r.file_id; pos = r.pos });
  req_performed = add32 s.req_performed 1;
  is_dirty = is_write r.operation || s.is_dirty;
}

-- The loop at the label `retry`.
unfoldable pub retry : Sampling → Config → ℕ → FileOp → State → List ℕ → Outcome
retry f c thread_id op s [] = waits
retry f c thread_id op s (randnum ∷ rest) =
    let again = retry f c thread_id op s rest in
    let r = block_request f c op randnum in
    if c.validate && is_busy thread_id 0 r.file_id r.pos s.per_thread
    then again
    else gives (some r) (take_block thread_id r s) rest

unfoldable pub get_rnd_request : Sampling → Config → ℕ → State → List ℕ → Outcome
get_rnd_request f c thread_id s rands =
    if is_over c s
    then (let (r, s') = finish c s in gives r s' rands)
    else if is_sync_due c s
    then (let (r, s') = periodic c s in gives r s' rands)
    else if c.file_size == 0
    then division_by_zero
    else retry f c thread_id (rnd_operation (rnd_mode f c s)) s rands
