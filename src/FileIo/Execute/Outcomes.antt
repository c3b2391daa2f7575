-- ===== src/FileIo/Execute/Outcomes.antt =====
-- What file_execute_request does with a request.
use my_sqltutorials.Prelude.{
  ℕ, ◌+◌, ◌*◌, ◌/◌, ◌%◌, ◌≤◌, ◌<◌, ◌≡◌, ◌≢◌, ◌↔◌, refl, arith, Bool, true, false, if◌then◌else◌,
}
use my_sqltutorials.Prelude.Int.{pos}
use my_sqltutorials.Prelude.Words.{u32_mod, u64_mod}
use my_sqltutorials.FileIo.{FileOp, Request, Config, State}
use my_sqltutorials.FileIo.Sequential.Bounds.{IsServable}
use my_sqltutorials.FileIo.Random.{Sampling, sampled, block_request}
use my_sqltutorials.FileIo.Execute.{
  Answers, Executed, fault, failed, succeeded, is_async, count_write, count_read, count_other,
  execute_write, execute_read, execute_fsync, execute,
}

abbrev IsFault : Executed → Type 0
IsFault fault = Unit {0}
IsFault _ = ⊥

-- `files` is read past its end exactly for the file behind the last one, at bytes that a file has.
pub execute-fault :
    (c : Config) (a : Answers) (r : Request) (s : State)
    → (execute c a r s ≡ fault) ↔ ((r.file_id ≡ c.num_files) × (r.pos + r.size ≤ c.file_size))
unfolding execute execute_write execute_read execute_fsync
execute-fault c a r s = ground arith

quotient_at : (x b n : ℕ) → 0 < b → n * b ≤ x → x < n * b + b → x / b ≡ n
quotient_at x b n h l m = grind arith

remainder_at : (x b n k : ℕ) → 0 < b → n * b ≤ x → x + k ≤ n * b + b → x % b + k ≤ b
remainder_at x b n k h l m = grind arith

-- Every random request for a whole block behind the last file, within one file size of its end,
-- reads `files` past its end: such blocks are in the remainder that a total size leaves which is
-- no multiple of the number of files.
pub remainder-fault :
    (f : Sampling) (c : Config) (a : Answers) (s : State) (op : FileOp) (randnum : ℕ)
    → c.num_files < u32_mod
    → 0 < c.file_size
    → c.num_files * c.file_size ≤ sampled f c randnum
    → sampled f c randnum + c.file_block_size ≤ c.num_files * c.file_size + c.file_size
    → 0 < c.file_block_size
    → execute c a (block_request f c op randnum) s ≡ fault
unfolding block_request
remainder-fault f c a s op randnum fit some_bytes lo hi some_block =
    let x = sampled f c randnum in
    (execute-fault c a (block_request f c op randnum) s).1 (
      omega (arith, quotient_at x c.file_size c.num_files some_bytes lo (omega arith)),
      remainder_at x c.file_size c.num_files c.file_block_size some_bytes lo hi,
    )

-- The counters of `t` are those of `s` with `w` writes and `bw` bytes written more, and so on; the
-- operations are counted modulo 2^32, the bytes modulo 2^64.
pub record Adds (s t : State) (w bw r br o : ℕ) : Type 0 where
  pub writes : t.write_ops % u32_mod ≡ (s.write_ops + w) % u32_mod
  pub written : t.bytes_written % u64_mod ≡ (s.bytes_written + bw) % u64_mod
  pub reads : t.read_ops % u32_mod ≡ (s.read_ops + r) % u32_mod
  pub bytes : t.bytes_read % u64_mod ≡ (s.bytes_read + br) % u64_mod
  pub others : t.other_ops % u32_mod ≡ (s.other_ops + o) % u32_mod

abbrev pub AddsFor : Config → Request → State → State → FileOp → Type 0
AddsFor c r s t FileOp.null = ⊥
AddsFor c r s t FileOp.write = Adds s t 1 r.size 0 0 (if c.file_fsync_all then 1 else 0)
AddsFor c r s t FileOp.read = Adds s t 0 0 1 r.size 0
AddsFor c r s t FileOp.fsync = Adds s t 0 0 0 0 (if c.file_fsync_all then 0 else 1)

abbrev pub Accounts : Config → Request → State → Executed → Type 0
Accounts c r s fault = ⊥
Accounts c r s (failed e events t) = t ≡ s
Accounts c r s (succeeded events t) = AddsFor c r s t r.operation

abbrev pub Succeeds : Executed → Type 0
Succeeds (succeeded events t) = Unit {0}
Succeeds _ = ⊥

Accounts-if :
    (c : Config) (r : Request) (s : State) (b : Bool) (x y : Executed)
    → (b ≡ true → Accounts c r s x)
    → (b ≡ false → Accounts c r s y)
    → Accounts c r s (if b then x else y)
Accounts-if c r s true x y h k = h refl
Accounts-if c r s false x y h k = k refl

write-Accounts :
    (c : Config) (a : Answers) (r : Request) (s : State)
    → is_async c.file_io_mode ≡ false
    → r.operation ≡ FileOp.write
    → Accounts c r s (execute_write c a r s)
unfolding execute_write count_write count_other
write-Accounts c a r s sync op = ground arith

read-Accounts :
    (c : Config) (a : Answers) (r : Request) (s : State)
    → is_async c.file_io_mode ≡ false
    → r.operation ≡ FileOp.read
    → Accounts c r s (execute_read c a r s)
unfolding execute_read count_read
read-Accounts c a r s sync op = ground arith

fsync-Accounts :
    (c : Config) (a : Answers) (r : Request) (s : State)
    → is_async c.file_io_mode ≡ false
    → r.operation ≡ FileOp.fsync
    → Accounts c r s (execute_fsync c a r s)
unfolding execute_fsync count_other
fsync-Accounts c a r s sync op = ground arith

-- In a synchronous mode, a request for an existing file does not fault. If it succeeds, it adds
-- one to the counter of its kind, modulo 2^32, and its size to the bytes of its kind, modulo 2^64
-- (and one to the other operations for a write with `file_fsync_all`); if it fails, it changes no
-- counter.
pub execute-Accounts :
    (c : Config) (a : Answers) (r : Request) (s : State)
    → is_async c.file_io_mode ≡ false
    → r.file_id < c.num_files
    → Accounts c r s (execute c a r s)
unfolding execute
execute-Accounts c a r s sync exists = ground (
  arith,
  Accounts-if c r s,
  write-Accounts c a r s sync,
  read-Accounts c a r s sync,
  fsync-Accounts c a r s sync,
)

-- A request for an existing file, within its bytes and other than the null request, succeeds, if
-- the reads and writes transfer its size, no fsync fails and the block that was read is valid.
pub execute-Succeeds :
    (c : Config) (a : Answers) (r : Request) (s : State)
    → IsServable c r
    → r.operation ≢ FileOp.null
    → a.pwrite r ≡ pos r.size
    → a.pread r ≡ pos r.size
    → a.fsync_fails r.file_id ≡ false
    → a.is_valid r ≡ true
    → Succeeds (execute c a r s)
unfolding execute execute_write execute_read execute_fsync
execute-Succeeds c a r s ok not_null w r' f v = ground arith
