-- ===== src/FileIo/Setup.antt =====
-- The options and the files of the file I/O test (parse_arguments, create_files, remove_files and the
-- commands of sb_fileio.c). The values of the options and the system calls are arguments.
pub mod Words
pub mod Created
pub mod Accepted
mod Tests
use my_sqltutorials.Prelude.{
  ℕ, zero, suc, ◌+◌, ◌-◌, ◌*◌, ◌/◌, ◌%◌, ◌^◌, ◌<◌, ◌≡◌, arith, Bool, true, false, not, Option, none,
  some, List, [], ◌∷◌, ◌>>=◌, ◌==◌, ltb, leb, ◌&&◌, ◌||◌, if◌then◌else◌, Chars, length,
}
use my_sqltutorials.Prelude.Int.{ℤ, pos, negsuc}
use my_sqltutorials.Prelude.Words.{u32_mod, to_u32}
use my_sqltutorials.Logger.Text.{same_text}
use my_sqltutorials.FileIo.Setup.Words.{
  word_seqwr, word_seqrewr, word_seqrd, word_rndrd, word_rndwr, word_rndrw, word_sync, word_async,
  word_mmap, word_dsync, word_direct, word_fsync, word_fdatasync,
}
use my_sqltutorials.FileIo.{TestMode, FsyncMode, IoMode, Config}

-- file_flags_t
pub data ExtraFlags : Type 0 where
  normal sync dsync direct : ExtraFlags

-- What the options have: `mode` is none where the option has no value. `negative_ratio` is the test
-- of the floating point file-rw-ratio.
pub record Args : Type 0 where
  pub is_run : Bool
  pub file_num : ℤ
  pub total_size : ℕ
  pub test_mode : Option Chars
  pub io_mode : Option Chars
  pub merged_requests : ℤ
  pub block_size : ℕ
  pub extra_flags : Option Chars
  pub fsync_freq : ℤ
  pub fsync_end : Bool
  pub fsync_all : Bool
  pub fsync_mode : Chars
  pub negative_ratio : Bool

-- HAVE_LIBAIO, HAVE_MMAP and HAVE_FDATASYNC.
pub record Platform : Type 0 where
  pub libaio : Bool
  pub mmap : Bool
  pub fdatasync : Bool

unfoldable pub test_mode_of : Chars → Option TestMode
test_mode_of mode =
    if same_text mode word_seqwr
    then some TestMode.write
    else if same_text mode word_seqrewr
    then some TestMode.rewrite
    else if same_text mode word_seqrd
    then some TestMode.read
    else if same_text mode word_rndrd
    then some TestMode.rnd_read
    else if same_text mode word_rndwr
    then some TestMode.rnd_write
    else if same_text mode word_rndrw
    then some TestMode.rnd_rw
    else none

-- The mode is read for the command "run" only.
unfoldable pub parse_test_mode :
    (is_run : Bool) → Option Chars → (before : TestMode) → Option TestMode
unfolding test_mode_of
parse_test_mode false mode before = some before
parse_test_mode true none before = none
parse_test_mode true (some mode) before = test_mode_of mode

unfoldable pub parse_io_mode : Platform → Option Chars → Option IoMode
parse_io_mode platform none = some IoMode.sync
parse_io_mode platform (some mode) =
    if same_text mode word_sync
    then some IoMode.sync
    else if same_text mode word_async
    then (if platform.libaio then some IoMode.async else none)
    else if same_text mode word_mmap
    then (if platform.mmap then some IoMode.mmap else none)
    else none

unfoldable pub parse_extra_flags : Option Chars → Option ExtraFlags
parse_extra_flags none = some ExtraFlags.normal
parse_extra_flags (some []) = some ExtraFlags.normal
parse_extra_flags (some (c ∷ mode)) =
    if same_text (c ∷ mode) word_sync
    then some ExtraFlags.sync
    else if same_text (c ∷ mode) word_dsync
    then some ExtraFlags.dsync
    else if same_text (c ∷ mode) word_direct
    then some ExtraFlags.direct
    else none

unfoldable pub parse_fsync_mode : Platform → Chars → Option FsyncMode
parse_fsync_mode platform mode =
    if same_text mode word_fsync
    then some FsyncMode.all
    else if same_text mode word_fdatasync
    then (if platform.fdatasync then some FsyncMode.data_only else none)
    else none

-- An `int` that is not allowed to be negative.
abbrev natural : ℤ → Option ℕ
natural n = if leb (2 ^ 31) (to_u32 n) then none else some (to_u32 n)

-- `int file_block_size` and `long long total_size` from an `unsigned long long`, where they are
-- positive.
abbrev positive : (bits size : ℕ) → Option ℕ
positive bits size =
    let low = size % (2 ^ bits * 2) in if (low == 0) || leb (2 ^ bits) low then none else some low

-- The options up to file-test-mode: num_files, total_size and test_mode.
unfoldable pub parse_sizes : Args → (before : TestMode) → Option (ℕ × ℕ × TestMode)
unfolding parse_test_mode
parse_sizes a before =
    let num_files = to_u32 a.file_num in
    if num_files == 0 then none else do
      total_size ← positive 63 a.total_size
      test_mode ← parse_test_mode a.is_run a.test_mode before
      some (num_files, total_size, test_mode)

-- Then up to file-block-size: file_io_mode, file_merged_requests and file_block_size.
unfoldable pub parse_requests : Platform → Args → Option (IoMode × ℕ × ℕ)
unfolding parse_io_mode
parse_requests platform a = do
  io_mode ← parse_io_mode platform a.io_mode
  merged ← natural a.merged_requests
  block_size ← positive 31 a.block_size
  some (io_mode, merged, block_size)

-- And the rest: file_extra_flags, file_fsync_freq and file_fsync_mode.
unfoldable pub parse_syncs : Platform → Args → Option (ExtraFlags × ℕ × FsyncMode)
unfolding parse_extra_flags parse_fsync_mode
parse_syncs platform a = do
  flags ← parse_extra_flags a.extra_flags
  freq ← natural a.fsync_freq
  fsync_mode ← parse_fsync_mode platform a.fsync_mode
  if a.negative_ratio then none else some (flags, freq, fsync_mode)

-- The options of a run from what is parsed; `c` has the options from before. The product of
-- two `int` values is its word of 32 bits, which is the value where the product is below 2^31.
unfoldable pub assemble :
    Args → (c : Config) → ℕ × ℕ × TestMode → IoMode × ℕ × ℕ → ℕ → FsyncMode → Config
assemble a c (num_files, total_size, test_mode) (io_mode, merged, block_size) freq fsync_mode =
    record c {
      num_files = num_files;
      total_size = total_size;
      file_size = total_size / num_files;
      file_block_size = block_size;
      file_fsync_freq = if a.fsync_all then 0 else freq;
      file_fsync_all = a.fsync_all;
      file_fsync_end = not a.fsync_all && a.fsync_end;
      file_fsync_mode = fsync_mode;
      file_merged_requests = merged;
      file_max_request_size = if ltb 0 merged then (block_size * merged) % u32_mod else block_size;
      file_io_mode = io_mode;
      test_mode = test_mode;
    }

-- `none` is the result 1.
unfoldable pub parse_arguments : Platform → Args → (c : Config) → Option (Config × ExtraFlags)
parse_arguments platform a c = do
  sizes ← parse_sizes a c.test_mode
  requests ← parse_requests platform a
  (flags, freq, fsync_mode) ← parse_syncs platform a
  some (assemble a c sizes requests freq fsync_mode, flags)

-- What the system does for one of the files: whether it can be opened, its length, and the results
-- of the calls of write, in order: the bytes written, or `none`. Without another result all bytes are
-- written.
pub record FileSystem : Type 0 where
  pub opens : Bool
  pub length_before : ℕ
  pub writes : List (Option ℕ)

-- `offset` and `written` of create_files, and the length of the file.
pub record Filling : Type 0 where
  pub offset : ℕ
  pub written : ℕ
  pub file_length : ℕ

-- The loop over the blocks of a file; `none` is a failure of write, and the flag tells that the
-- fuel was enough.
unfoldable pub fill_file :
    (fuel : ℕ) → (block file_size : ℕ) → List (Option ℕ) → Filling → Option (Bool × Filling)
fill_file zero block file_size writes f = some (false, f)
fill_file (suc fuel) block file_size [] f =
    let rest = fill_file fuel block file_size [] (record {
      offset = f.offset + block;
      written = f.written + block;
      file_length = f.file_length + block;
    }) in
    if ltb f.offset file_size then rest else some (true, f)
fill_file (suc fuel) block file_size (none ∷ writes) f =
    if ltb f.offset file_size then none else some (true, f)
fill_file (suc fuel) block file_size (some n ∷ writes) f =
    let rest = fill_file fuel block file_size writes (record {
      offset = f.offset + block;
      written = f.written + block;
      file_length = f.file_length + n;
    }) in
    if ltb f.offset file_size then rest else some (true, f)

-- The loop over the files: the lengths of the files and the bytes written, or `none`.
unfoldable pub create_files :
    (fuel : ℕ) → (block file_size : ℕ) → List FileSystem → (written : ℕ) → Option (List ℕ × ℕ)
unfolding fill_file
create_files fuel block file_size [] written = some ([], written)
create_files fuel block file_size (s ∷ files) written =
    if not s.opens
    then none
    else elim (fill_file fuel block file_size s.writes
        (record { offset = s.length_before; written = written; file_length = s.length_before })) [
          | none ↦ none
          | some (ended, f) ↦ elim (create_files fuel block file_size files f.written) [
            | none ↦ none
            | some (lengths, total) ↦ some (f.file_length ∷ lengths, total)
          ]
        ]

-- What file_cmd_prepare does: it removes the files, or creates them.
pub data Preparation : Type 0 where
  refuses removes creates : Preparation

unfoldable pub prepare_files : Option (Config × ExtraFlags) → Preparation
prepare_files none = refuses
prepare_files (some (c, flags)) = elim c.test_mode [ TestMode.write ↦ removes | _ ↦ creates ]

unfoldable pub file_cmd_prepare : Platform → Args → Config → Preparation
unfolding parse_arguments prepare_files
file_cmd_prepare platform a c = prepare_files (parse_arguments platform a c)
