-- ===== src/FileIo/Setup/Accepted.antt =====
-- The options that parse_arguments accepts, and the command "prepare".
use my_sqltutorials.Prelude.{
  >>=-some, ◌>>=◌, ℕ, ◌*◌, ◌/◌, ◌%◌, ◌^◌, ◌<◌, ◌≤◌, ◌≡◌, ◌≢◌, refl, subst, sym, ◌∙◌, arith, Bool,
  true, false, Option, none, some, Bool-cases, ltb→lt, inl, inr, ◌==◌, ltb, if◌then◌else◌, Chars,
}
use my_sqltutorials.Prelude.Int.{ℤ, pos, negsuc}
use my_sqltutorials.Prelude.Words.{to_u32, u32_mod}
use my_sqltutorials.FileIo.{TestMode, IoMode, FsyncMode, Config}
use my_sqltutorials.FileIo.Setup.{
  Platform, Args, ExtraFlags, parse_arguments, parse_test_mode, parse_io_mode, file_cmd_prepare,
  Preparation, natural, positive, parse_sizes, parse_requests, parse_syncs, assemble, prepare_files,
}

-- What a run relies on.
pub record IsAccepted (a : Args) (before c : Config) : Type 0 where
  pub some_file : 0 < c.num_files
  pub few_files : c.num_files < u32_mod
  pub some_byte : (0 < c.total_size) × (c.total_size < 2 ^ 63)
  pub some_block : (0 < c.file_block_size) × (c.file_block_size < 2 ^ 31)
  pub share : c.file_size ≡ c.total_size / c.num_files
  pub request :
      c.file_block_size * c.file_merged_requests < 2 ^ 31
      → c.file_block_size ≤ c.file_max_request_size
  pub all_syncs : c.file_fsync_all ≡ true → (c.file_fsync_freq ≡ 0) × (c.file_fsync_end ≡ false)
  pub kept_mode : a.is_run ≡ false → c.test_mode ≡ before.test_mode

positive-bounds : (bits size n : ℕ) → positive bits size ≡ some n → (0 < n) × (n < 2 ^ bits)
positive-bounds bits size n e = ground arith

mode-kept :
    (is_run : Bool) (mode : Option Chars) (before after : TestMode)
    → parse_test_mode is_run mode before ≡ some after
    → is_run ≡ false
    → after ≡ before
unfolding parse_test_mode
mode-kept true mode before after e h = cc
mode-kept false mode before after e h = cc

third :
    {A B C : Type 0} {x x' : A} {y y' : B} {z z' : C}
    → ◌≡◌ {A = Option (A × B × C)} (some (x, y, z)) (some (x', y', z'))
    → z' ≡ z
third e = cc

to_u32-lt : (n : ℤ) → to_u32 n < u32_mod
to_u32-lt (pos n) = omega arith
to_u32-lt (negsuc n) = omega arith

third_first :
    {A B C : Type 0} {x x' : A} {y y' : B} {z z' : C}
    → ◌≡◌ {A = Option (A × B × C)} (some (x, y, z)) (some (x', y', z'))
    → x ≡ x'
third_first e = cc

sizes_inv :
    (a : Args) (before mode : TestMode) (num total : ℕ)
    → parse_sizes a before ≡ some (num, total, mode)
    → ((0 < num) × (num < u32_mod))
      × ((0 < total) × (total < 2 ^ 63))
      × (a.is_run ≡ false → mode ≡ before)
unfolding parse_sizes
sizes_inv a before mode num total e = elim (Bool-cases (to_u32 a.file_num == 0)) [
  | inl z ↦ absurd (ground arith)
  | inr z ↦
      let (t, p, q) =
        >>=-some (positive 63 a.total_size)
          (λ t. parse_test_mode a.is_run a.test_mode before >>= λ m. some (to_u32 a.file_num, t, m))
          _ (rw z at e) in
      let (m, r, u) =
        >>=-some (parse_test_mode a.is_run a.test_mode before) (λ m. some (to_u32 a.file_num, t, m))
          _ q in
      let b = positive-bounds 63 a.total_size t p in
      (
        (ground arith, ground (arith, to_u32-lt a.file_num, third_first u)),
        ground arith,
        λ h. third u ∙ mode-kept a.is_run a.test_mode before m r h,
      )
]

requests_inv :
    (platform : Platform) (a : Args) (io : IoMode) (merged block : ℕ)
    → parse_requests platform a ≡ some (io, merged, block)
    → (0 < block) × (block < 2 ^ 31)
unfolding parse_requests
requests_inv platform a io merged block e =
    let (i, p, q) =
      >>=-some (parse_io_mode platform a.io_mode)
        (λ i. natural a.merged_requests >>= λ m. positive 31 a.block_size >>= λ b. some (i, m, b)) _
        e in
    let (m, r, t) =
      >>=-some (natural a.merged_requests) (λ m. positive 31 a.block_size >>= λ b. some (i, m, b)) _
        q in
    let (b, u, v) = >>=-some (positive 31 a.block_size) (λ b. some (i, m, b)) _ t in
    let k = positive-bounds 31 a.block_size b u in rw (third v) k

at_least :
    (block merged : ℕ)
    → block * merged < 2 ^ 31
    → block ≤ (if ltb 0 merged then (block * merged) % u32_mod else block)
at_least block merged small = elim (Bool-cases (ltb 0 merged)) [
  | inl m ↦ rw m (grind (arith, ltb→lt 0 merged m))
  | inr m ↦ rw m (omega arith)
]

assemble-IsAccepted :
    (a : Args) (before : Config) (num total : ℕ) (mode : TestMode) (io : IoMode)
    (merged block freq : ℕ) (fsync : FsyncMode)
    → ((0 < num) × (num < u32_mod))
      × ((0 < total) × (total < 2 ^ 63))
      × (a.is_run ≡ false → mode ≡ before.test_mode)
    → (0 < block) × (block < 2 ^ 31)
    → IsAccepted a before (assemble a before (num, total, mode) (io, merged, block) freq fsync)
unfolding assemble
assemble-IsAccepted a before num total mode io merged block freq fsync s r = record {
  some_file = s.0.0;
  few_files = s.0.1;
  some_byte = s.1;
  some_block = r;
  share = refl;
  request = at_least block merged;
  all_syncs = λ e. (rw e, rw e);
  kept_mode = s.2;
}

first_of :
    {A B : Type 0} {x x' : A} {y y' : B}
    → ◌≡◌ {A = Option (A × B)} (some (x, y)) (some (x', y'))
    → x ≡ x'
first_of e = cc

-- Options that are accepted have a file, a byte in all, a block, and, where block size times
-- merged requests is below 2^31, requests of a block at least; synchronisation after each write
-- turns the other synchronisations off; and the test mode is that from before unless the command
-- is "run".
pub parse-IsAccepted :
    (platform : Platform) (a : Args) (before c : Config) (flags : ExtraFlags)
    → parse_arguments platform a before ≡ some (c, flags)
    → IsAccepted a before c
unfolding parse_arguments
parse-IsAccepted platform a before c flags e =
    let (sizes, e1, f1) = >>=-some (parse_sizes a before.test_mode) _ (c, flags) e in
    let (requests, e2, f2) = >>=-some (parse_requests platform a) _ (c, flags) f1 in
    let (syncs, e3, f3) = >>=-some (parse_syncs platform a) _ (c, flags) f2 in
    let s = sizes_inv a before.test_mode sizes.2 sizes.0 sizes.1 e1 in
    let r = requests_inv platform a requests.0 requests.1 requests.2 e2 in
    subst (λ k. IsAccepted a before k) (first_of f3)
      (assemble-IsAccepted a before sizes.0 sizes.1 sizes.2 requests.0 requests.1 requests.2 syncs.1
        syncs.2 s r)

removes_inv :
    (o : Option (Config × ExtraFlags))
    → prepare_files o ≡ Preparation.removes
    → (c : Config) × (flags : ExtraFlags) × (o ≡ some (c, flags)) × (c.test_mode ≡ TestMode.write)
unfolding prepare_files
removes_inv none e = absurd (ground arith)
removes_inv (some (c, flags)) e = (c, flags, refl, ground arith)

-- The command "prepare" never removes the files, unless the test mode was set to sequential writes
-- before the options are read: the option with the mode is read for the command "run" only.
pub prepare-ne-removes :
    (platform : Platform) (a : Args) (before : Config)
    → a.is_run ≡ false
    → before.test_mode ≢ TestMode.write
    → file_cmd_prepare platform a before ≢ Preparation.removes
unfolding file_cmd_prepare
prepare-ne-removes platform a before h n e =
    let (c, flags, p, w) = removes_inv (parse_arguments platform a before) e in
    n (sym ((parse-IsAccepted platform a before c flags p).kept_mode h) ∙ w)
