-- ===== src/FileIo/Setup/Tests.antt =====
-- The options and the files at concrete values.
use my_sqltutorials.Prelude.{ℕ, ◌+◌, ◌≡◌, refl, arith, true, false, none, some, List, [], ◌∷◌, sum}
use my_sqltutorials.Prelude.Int.{pos}
use my_sqltutorials.Logger.Text.{same_text}
use my_sqltutorials.FileIo.{Config, FileOp, FsyncMode, IoMode, State, TestMode}
use my_sqltutorials.FileIo.Sequential.{
  get_seq_request, transfer, rewind, next_request, advance, charge,
}
use my_sqltutorials.FileIo.Setup.{
  Args, ExtraFlags, FileSystem, Platform, assemble, create_files, parse_arguments, parse_sizes,
  parse_requests, parse_syncs,
}
use my_sqltutorials.FileIo.Setup.Words.{word_fsync, word_seqwr}
use my_sqltutorials.FileIo.Run.{
  file_init, init_vars, clear_stats, seq_calls, AllServed, InOrder, file_init-InOrder,
}
use my_sqltutorials.FileIo.Setup.Created.{AllFilled, create_files-AllFilled, lengths_before}

-- The second file is there in part.
abbrev two_files : List FileSystem
two_files =
    record { opens = true; length_before = 0; writes = some 4 ∷ [] }
    ∷ record { opens = true; length_before = 3; writes = [] }
    ∷ []

create_two : create_files 11 4 10 two_files 0 ≡ some (12 ∷ 11 ∷ [], 20)
unfolding create_files
create_two = refl

-- A write of 1 byte of 4 is no error, and the file is too short.
short_write :
    create_files 11 4 10 (record { opens = true; length_before = 0; writes = some 1 ∷ [] } ∷ []) 0
    ≡ some (9 ∷ [], 12)
unfolding create_files
short_write = refl

create_files-AllFilled_example :
    (lengths : List ℕ) × (total : ℕ) × (create_files 11 4 10 two_files 0 ≡ some (lengths, total))
    × AllFilled 4 10 two_files lengths
    × (total + sum (lengths_before two_files) ≡ 0 + sum lengths)
create_files-AllFilled_example =
    create_files-AllFilled 11 4 10 two_files 0 (omega arith) (omega arith)
      ((refl, (refl, tt)), ((refl, tt), tt))

abbrev platform : Platform
platform = record { libaio = true; mmap = true; fdatasync = true }

-- file-test-mode=seqwr with the command "prepare"
abbrev args : Args
args = record {
  is_run = false;
  file_num = pos 2;
  total_size = 100;
  test_mode = some word_seqwr;
  io_mode = none;
  merged_requests = pos 0;
  block_size = 4;
  extra_flags = none;
  fsync_freq = pos 100;
  fsync_end = true;
  fsync_all = false;
  fsync_mode = word_fsync;
  negative_ratio = false;
}

-- The variables before the options are read.
abbrev zeroed : Config
zeroed = record {
  num_files = 0;
  total_size = 0;
  file_size = 0;
  file_block_size = 0;
  file_fsync_freq = 0;
  file_fsync_all = false;
  file_fsync_end = false;
  file_fsync_mode = FsyncMode.all;
  file_merged_requests = 0;
  file_max_request_size = 0;
  file_io_mode = IoMode.sync;
  test_mode = TestMode.read;
  max_requests = 0;
  validate = false;
}

abbrev parsed : Config
parsed = record zeroed {
  num_files = 2;
  total_size = 100;
  file_size = 50;
  file_block_size = 4;
  file_fsync_freq = 100;
  file_fsync_end = true;
  file_max_request_size = 4;
}

parse_args : parse_arguments platform args zeroed ≡ some (parsed, ExtraFlags.normal)
unfolding parse_arguments parse_sizes parse_requests parse_syncs assemble same_text
parse_args = refl

-- Two files of 20 bytes in blocks of 10.
abbrev whole_args : Args
whole_args = record args { total_size = 40; block_size = 10 }

abbrev whole : Config
whole = record parsed {
  total_size = 40;
  file_size = 20;
  file_block_size = 10;
  file_max_request_size = 10;
}

abbrev used : State
used = record {
  position = 7;
  current_file = 9;
  fsynced_file = 9;
  fsynced_file2 = 9;
  is_dirty = true;
  read_ops = 3;
  write_ops = 3;
  other_ops = 3;
  req_performed = 9;
  bytes_read = 30;
  bytes_written = 30;
  prev_req = record { file_id = 0; pos = 0; size = 0; operation = FileOp.null };
  per_thread = [];
}

abbrev cleared : State
cleared = record used {
  position = 0;
  current_file = 0;
  fsynced_file = 0;
  fsynced_file2 = 0;
  is_dirty = false;
  read_ops = 0;
  write_ops = 0;
  other_ops = 0;
  req_performed = 0;
  bytes_read = 0;
  bytes_written = 0;
}

init_whole : file_init platform whole_args zeroed true used ≡ some (whole, cleared)
unfolding file_init init_vars clear_stats parse_arguments parse_sizes parse_requests parse_syncs
    assemble same_text
init_whole = refl

file_init-InOrder_example :
    AllServed whole (seq_calls 5 whole cleared) × InOrder whole 0 (seq_calls 5 whole cleared)
file_init-InOrder_example =
    file_init-InOrder platform whole_args zeroed whole true used cleared 5 init_whole
      (record { bytes = omega arith; product = omega arith; blocks = λ e. refl })

-- Files of 15 bytes in blocks of 10: the requests go on in the first file, behind its end.
past_end :
    seq_calls 3
      (record whole { total_size = 30; file_size = 15; test_mode = TestMode.read })
      cleared
    ≡ some (record { file_id = 0; pos = 0; size = 10; operation = FileOp.read })
      ∷ some (record { file_id = 0; pos = 10; size = 10; operation = FileOp.read })
      ∷ some (record { file_id = 0; pos = 20; size = 10; operation = FileOp.read })
      ∷ []
unfolding seq_calls get_seq_request transfer rewind next_request advance charge
past_end = refl
