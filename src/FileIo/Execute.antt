-- ===== src/FileIo/Execute.antt =====
-- file_execute_request: a request is checked, carried out and counted. What the operating system
-- answers is an `Answers`; the buffers are in Buffer.
pub mod Outcomes
use my_sqltutorials.Prelude.{
  ℕ, ◌+◌, Bool, true, false, not, List, [], ◌∷◌, ◌++◌, ltb, ◌==◌, ◌&&◌, if◌then◌else◌,
}
use my_sqltutorials.Prelude.Int.{ℤ, pos, negsuc}
use my_sqltutorials.Prelude.Words.{add32, add64}
use my_sqltutorials.FileIo.{FileOp, IoMode, Request, Config, State}

-- What file_pwrite and file_pread return, whether file_fsync fails, and whether the block that was
-- read passes file_validate_buffer.
pub record Answers : Type 0 where
  pub pwrite : Request → ℤ
  pub pread : Request → ℤ
  pub fsync_fails : ℕ → Bool
  pub is_valid : Request → Bool

-- file_fill_buffer on the buffer of the thread (see Buffer), the messages to the operation log, and
-- the update of the percentile histogram.
pub data Event : Type 0 where
  filled started finished measured : Event

pub data Failure : Type 0 where
  incorrect_file_id too_large_position null_request : Failure
  write_failed fsync_failed read_failed validation_failed : Failure

-- `fault` is a read of `files` past its end.
pub data Executed : Type 0 where
  fault : Executed
  failed : Failure → List Event → State → Executed
  succeeded : List Event → State → Executed

abbrev is_count : ℤ → ℕ → Bool
is_count (pos n) size = n == size
is_count (negsuc n) size = false

abbrev pub is_async : IoMode → Bool
is_async IoMode.async = true
is_async _ = false

-- In async mode the counters are updated on completion.
unfoldable pub count_write : Config → Request → State → State
count_write c r s =
    if is_async c.file_io_mode
    then s
    else record s { write_ops = add32 s.write_ops 1; bytes_written = add64 s.bytes_written r.size }

unfoldable pub count_read : Config → Request → State → State
count_read c r s =
    if is_async c.file_io_mode
    then s
    else record s { read_ops = add32 s.read_ops 1; bytes_read = add64 s.bytes_read r.size }

unfoldable pub count_other : State → State
count_other s = record s { other_ops = add32 s.other_ops 1 }

abbrev pub all_events : List Event
all_events = started ∷ finished ∷ measured ∷ []

-- When validating, the block is filled before it is written.
abbrev pub fills : Config → List Event → List Event
fills c events = if c.validate then filled ∷ events else events

unfoldable pub execute_write : Config → Answers → Request → State → Executed
execute_write c a r s =
    if not (is_count (a.pwrite r) r.size)
    then failed write_failed (fills c (started ∷ [])) s
    else if c.file_fsync_all
    then (if a.fsync_fails r.file_id
        then failed fsync_failed (fills c (started ∷ [])) s
        else succeeded (fills c all_events) (count_write c r (count_other s)))
    else succeeded (fills c all_events) (count_write c r s)

unfoldable pub execute_read : Config → Answers → Request → State → Executed
execute_read c a r s =
    if not (is_count (a.pread r) r.size)
    then failed read_failed (started ∷ []) s
    else if c.validate && not (a.is_valid r)
    then failed validation_failed all_events s
    else succeeded all_events (count_read c r s)

-- Ignored if each operation is synced anyway.
unfoldable pub execute_fsync : Config → Answers → Request → State → Executed
execute_fsync c a r s =
    if c.file_fsync_all
    then succeeded [] s
    else if a.fsync_fails r.file_id
    then failed fsync_failed [] s
    else if is_async c.file_io_mode
    then succeeded [] s
    else succeeded [] (count_other s)

unfoldable pub execute : Config → Answers → Request → State → Executed
execute c a r s =
    if ltb c.num_files r.file_id
    then failed incorrect_file_id [] s
    else if ltb c.file_size (r.pos + r.size)
    then failed too_large_position [] s
    else if r.file_id == c.num_files
    then fault
    else elim r.operation [
      | FileOp.null ↦ failed null_request [] s
      | FileOp.write ↦ execute_write c a r s
      | FileOp.read ↦ execute_read c a r s
      | FileOp.fsync ↦ execute_fsync c a r s
    ]
