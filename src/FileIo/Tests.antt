-- ===== src/FileIo/Tests.antt =====
-- The theorems of the file test at small configurations: two files of 20 bytes in blocks of 10.
use my_sqltutorials.Prelude.{
  ℕ, zero, suc, ◌*◌, ◌/◌, ◌%◌, ◌<◌, ◌≡◌, ◌≢◌, inl, inr, refl, arith, true, false, some, List, [],
  ◌∷◌, ltb, get_elem?, sum, replicate,
}
use native.Mathlib.Nat.{mod-lt}
use my_sqltutorials.Prelude.Int.{pos}
use my_sqltutorials.Prelude.Words.{u32_mod}
use my_sqltutorials.FileIo.{FileOp, TestMode, FsyncMode, IoMode, Request, Config, State, Block}
use my_sqltutorials.FileIo.Sequential.Bounds.{IsWalkable}
use my_sqltutorials.FileIo.Sequential.Warnings.{IsLinked}
use my_sqltutorials.FileIo.Sequential.Syncs.{IsDue}
use my_sqltutorials.FileIo.Random.{Sampling, max_rnd, get_rnd_request}
use my_sqltutorials.FileIo.Random.Bounds.{
  IsTiled, IsFraction, Yields, Kept, get_rnd_request-IsBlock,
}
use my_sqltutorials.FileIo.Random.Exclusion.{
  IsExclusive, LeavesExclusive, get_rnd_request-IsExclusive,
}
use my_sqltutorials.FileIo.Execute.{Answers, execute}
use my_sqltutorials.FileIo.Execute.Outcomes.{Accounts, execute-Accounts}
use my_sqltutorials.FileIo.Buffer.{file_fill_buffer, file_validate_buffer, validate-fill}

abbrev small : Config
small = record {
  num_files = 2;
  total_size = 40;
  file_size = 20;
  file_block_size = 10;
  file_fsync_freq = 3;
  file_fsync_all = false;
  file_fsync_end = true;
  file_fsync_mode = FsyncMode.all;
  file_merged_requests = 0;
  file_max_request_size = 10;
  file_io_mode = IoMode.sync;
  test_mode = TestMode.write;
  max_requests = 4;
  validate = true;
}

abbrev first_block : Request
first_block = record { file_id = 0; pos = 0; size = 10; operation = FileOp.write }

-- After the first block of the first file.
abbrev begun : State
begun = record {
  position = 10;
  current_file = 0;
  fsynced_file = 0;
  fsynced_file2 = 0;
  is_dirty = true;
  read_ops = 0;
  write_ops = 1;
  other_ops = 0;
  req_performed = 1;
  bytes_read = 0;
  bytes_written = 10;
  prev_req = first_block;
  per_thread = record { file_id = 0; pos = 0 } ∷ record { file_id = 1; pos = 10 } ∷ [];
}

begun-IsLinked : IsLinked small begun
begun-IsLinked = inr (record { file_exists = omega arith; meets = inl (refl, refl, omega arith) })

abbrev single : Config
single = record small { num_files = 1; total_size = 20 }

-- At the end of the only file.
abbrev at_end : State
at_end = record begun {
  position = 0;
  current_file = 1;
  req_performed = 2;
  prev_req = record { file_id = 0; pos = 10; size = 10; operation = FileOp.write };
}

single-IsWalkable : IsWalkable single
single-IsWalkable = record {
  some_files = omega arith;
  files_fit = omega arith;
  some_bytes = omega arith;
  some_request = omega arith;
  some_block = omega arith;
  whole_blocks = λ e. refl;
}

abbrev due : State
due = record begun { req_performed = 3 }

due-IsDue : IsDue small (omega arith) refl due 0
due-IsDue = record { running = refl; due = refl; next_file = refl }

abbrev shuffled : Config
shuffled = record small { test_mode = TestMode.rnd_write; file_fsync_freq = 0 }

abbrev linear : Sampling
linear = record { scale = λ r t. r * t / max_rnd; below_ratio = λ r w. ltb r w }

linear-IsFraction : IsFraction linear
linear-IsFraction r t h l = fraction r t h l
  where
    fraction : (r t : ℕ) → 0 < t → r < max_rnd → r * t / max_rnd < t
    fraction r t h l = grind arith

shuffled-IsTiled : IsTiled shuffled
shuffled-IsTiled = record {
  whole_files = refl;
  some_bytes = omega arith;
  some_files = omega arith;
  files_fit = omega arith;
  some_block = omega arith;
  whole_blocks = refl;
}

get_rnd_request-IsBlock_example :
    Yields (Kept shuffled) (get_rnd_request linear shuffled 0 begun (900000000 ∷ 5 ∷ []))
get_rnd_request-IsBlock_example =
    get_rnd_request-IsBlock linear shuffled-IsTiled linear-IsFraction 0 begun (900000000 ∷ 5 ∷ [])
      (omega arith, (omega arith, tt)) (omega arith)

begun-IsExclusive : IsExclusive begun.per_thread
begun-IsExclusive j k a b ne e f g = distinct j k a b ne e f g
  where
    distinct :
        (j k : ℕ) (a b : Block)
        → j ≢ k
        → get_elem? begun.per_thread j ≡ some a
        → get_elem? begun.per_thread k ≡ some b
        → a ≡ b
        → ⊥
    distinct zero zero a b ne e f g = ne refl
    distinct zero (suc zero) a b ne e f g = ground arith
    distinct (suc zero) zero a b ne e f g = ground arith
    distinct (suc zero) (suc zero) a b ne e f g = ne refl
    distinct zero (suc (suc k)) a b ne e f g = cc
    distinct (suc zero) (suc (suc k)) a b ne e f g = cc
    distinct (suc (suc j)) k a b ne e f g = cc

get_rnd_request-IsExclusive_example :
    LeavesExclusive (get_rnd_request linear shuffled 0 begun (900000000 ∷ 5 ∷ []))
get_rnd_request-IsExclusive_example =
    get_rnd_request-IsExclusive linear shuffled refl 0 begun (900000000 ∷ 5 ∷ []) begun-IsExclusive

abbrev good : Answers
good = record {
  pwrite = λ r. pos r.size;
  pread = λ r. pos r.size;
  fsync_fails = λ i. false;
  is_valid = λ r. true;
}

execute-Accounts_example : Accounts small first_block begun (execute small good first_block begun)
execute-Accounts_example = execute-Accounts small good first_block begun refl (omega arith)

abbrev behind : Request
behind = record { file_id = 2; pos = 10; size = 10; operation = FileOp.read }

-- 59 bytes leave a remainder of 19 behind two files of 20.
abbrev uneven : Config
uneven = record shuffled { total_size = 59 }

abbrev sum_crc : List ℕ → ℕ
sum_crc bs = sum bs % u32_mod

validate-fill_example :
    file_validate_buffer sum_crc
      (file_fill_buffer sum_crc (1 ∷ 300 ∷ 7 ∷ 9 ∷ []) 16 77 (replicate 16 0))
      16
      78
    ≡ 1
validate-fill_example =
    validate-fill sum_crc (λ bs. mod-lt (sum bs) (omega arith)) (1 ∷ 300 ∷ 7 ∷ 9 ∷ [])
      (replicate 16 0) 16 77 78 (omega arith) (omega arith) (omega arith) (omega arith)
