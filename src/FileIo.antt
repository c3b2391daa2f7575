-- ===== src/FileIo.antt =====
-- sysbench-0.5/sysbench/tests/fileio/sb_fileio.c and tests/sb_fileio.h: the file I/O test.
-- The options that a run does not change are a `Config`, the counters and cursors a `State`. A part
-- of the code between SB_THREAD_MUTEX_LOCK and UNLOCK is one step. `long long` and `ssize_t` values
-- are not negative here and do not overflow; `int` and `unsigned int` counters are words of 32 bits, which
-- wrap.
pub mod Sequential
pub mod Random
pub mod Execute
pub mod Buffer
pub mod Async
pub mod Setup
pub mod Run
mod Tests
use my_sqltutorials.Prelude.{
  ℕ, Bool, false, true, Option, none, some, List, ◌==◌, ◌||◌, if◌then◌else◌,
}

-- sb_file_op_t
pub data FileOp : Type 0 where
  null read write fsync : FileOp

pub record Request : Type 0 where
  pub file_id : ℕ
  pub pos : ℕ
  pub size : ℕ
  pub operation : FileOp

-- file_test_mode_t
pub data TestMode : Type 0 where
  read write rewrite rnd_read rnd_write rnd_rw mixed : TestMode

-- file_fsync_mode_t
pub data FsyncMode : Type 0 where
  all data_only : FsyncMode

-- file_io_mode_t
pub data IoMode : Type 0 where
  sync async mmap : IoMode

-- The test options, with the two global options that the requests depend on.
pub record Config : Type 0 where
  pub num_files : ℕ
  pub total_size : ℕ
  pub file_size : ℕ
  pub file_block_size : ℕ
  pub file_fsync_freq : ℕ
  pub file_fsync_all : Bool
  pub file_fsync_end : Bool
  pub file_fsync_mode : FsyncMode
  pub file_merged_requests : ℕ
  pub file_max_request_size : ℕ
  pub file_io_mode : IoMode
  pub test_mode : TestMode
  pub max_requests : ℕ
  pub validate : Bool

-- The block that a thread works on (buffer_file_id and buffer_pos of sb_per_thread_t).
pub record Block : Type 0 where
  pub file_id : ℕ
  pub pos : ℕ

pub record State : Type 0 where
  pub position : ℕ
  pub current_file : ℕ
  pub fsynced_file : ℕ
  pub fsynced_file2 : ℕ
  pub is_dirty : Bool
  pub read_ops : ℕ
  pub write_ops : ℕ
  pub other_ops : ℕ
  pub req_performed : ℕ
  pub bytes_read : ℕ
  pub bytes_written : ℕ
  pub prev_req : Request
  pub per_thread : List Block

abbrev pub is_write : FileOp → Bool
is_write FileOp.write = true
is_write _ = false

abbrev pub fsync_of : ℕ → Request
fsync_of id = record { file_id = id; pos = 0; size = 0; operation = FileOp.fsync }
