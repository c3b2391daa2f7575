-- ===== src/FileIo/Sequential/Syncs.antt =====
-- Which fsync requests a write test makes: the series of a periodic sync, and those at the end.
use my_sqltutorials.Prelude.{
  ℕ, zero, suc, ◌+◌, ◌≤◌, ◌<◌, ◌≡◌, refl, ◌∙◌, arith, true, false, Option, none, some, List, [],
  ◌∷◌, ◌++◌, replicate,
}
use my_sqltutorials.Prelude.Words.{u32_mod}
use my_sqltutorials.FileIo.{Request, Config, State, is_write, fsync_of}
use my_sqltutorials.FileIo.Sequential.{
  SeqWarning, finish, periodic, get_seq_request, seq_operation, is_over, is_sync_due,
}

-- `n` calls of file_get_seq_request, one after the other.
unfoldable pub requests : Config → ℕ → State → List (Option Request) × State
requests c zero s = ([], s)
requests c (suc n) s =
    let (r, _, s') = get_seq_request c s in let (rs, s'') = requests c n s' in (r ∷ rs, s'')

-- One fsync request for each of the `n` files from `k` on.
abbrev pub fsyncs : (k n : ℕ) → List (Option Request)
fsyncs k zero = []
fsyncs k (suc n) = some (fsync_of k) ∷ fsyncs (k + 1) n

requests-zero : (c : Config) (s : State) → requests c zero s ≡ ([], s)
unfolding requests
requests-zero c s = refl

requests-cons :
    (c : Config) (n : ℕ) (s : State) {s' t : State} {r : Option Request} {w : Option SeqWarning}
    {rs : List (Option Request)}
    → get_seq_request c s ≡ (r, w, s')
    → requests c n s' ≡ (rs, t)
    → requests c (suc n) s ≡ (r ∷ rs, t)
unfolding requests
requests-cons c n s e f = rw (e, f)

module _ (c : Config) (fit : c.num_files < u32_mod)
    (writes : is_write (seq_operation c.test_mode) ≡ true) where
  -- A state in which `k` is the next file of a due periodic series.
  pub record IsDue (s : State) (k : ℕ) : Type 0 where
    pub running : is_over c s ≡ false
    pub due : is_sync_due c s ≡ true
    pub next_file : s.fsynced_file ≡ k

  periodic_next :
      (s : State) (k : ℕ)
      → s.fsynced_file ≡ k
      → suc k < c.num_files
      → periodic c s ≡ (some (fsync_of k), record s { fsynced_file = k + 1 })
  unfolding periodic
  periodic_next s k e l = ground arith

  periodic_last :
      (s : State) (k : ℕ)
      → s.fsynced_file ≡ k
      → suc k ≡ c.num_files
      → periodic c s ≡ (some (fsync_of k), record s { fsynced_file = 0; is_dirty = false })
  unfolding periodic
  periodic_last s k e l = ground arith

  get_seq_request-due :
      (s : State) (k : ℕ) {r : Option Request} {t : State}
      → IsDue s k
      → periodic c s ≡ (r, t)
      → get_seq_request c s ≡ (r, none, t)
  unfolding get_seq_request
  get_seq_request-due s k d e = rw (d.running, writes, d.due, e)

  -- In a write test, a periodic series that is due syncs every file from the next one to the last, in
  -- order and with no other request in between, and leaves the test clean and the series at its start.
  pub periodic_series :
      (n : ℕ) (s : State) (k : ℕ)
      → IsDue s k
      → k + suc n ≡ c.num_files
      → requests c (suc n) s ≡ (fsyncs k (suc n), record s { fsynced_file = 0; is_dirty = false })
  periodic_series zero s k d e =
      requests-cons c zero s
        (get_seq_request-due s k d (periodic_last s k d.next_file (omega arith)))
        (requests-zero c _)
  periodic_series (suc n) s k d e =
      requests-cons c (suc n) s
        (get_seq_request-due s k d (periodic_next s k d.next_file (omega arith)))
        (periodic_series n (record s { fsynced_file = k + 1 }) (k + 1)
          (record { running = d.running; due = d.due; next_file = refl }) (omega arith))

  finish_next :
      (s : State) (k : ℕ)
      → c.file_fsync_end ≡ true
      → s.fsynced_file2 ≡ k
      → k < c.num_files
      → finish c (seq_operation c.test_mode) s
        ≡ (some (fsync_of k), record s { fsynced_file2 = k + 1 })
  unfolding finish
  finish_next s k on e l = ground arith

  finish_done :
      (s : State)
      → c.num_files ≤ s.fsynced_file2
      → finish c (seq_operation c.test_mode) s ≡ (none, s)
  unfolding finish
  finish_done s l = ground arith

  get_seq_request-over :
      (s : State) {r : Option Request} {t : State}
      → is_over c s ≡ true
      → finish c (seq_operation c.test_mode) s ≡ (r, t)
      → get_seq_request c s ≡ (r, none, t)
  unfolding get_seq_request
  get_seq_request-over s over e = rw (over, e)

  final_nulls :
      (m : ℕ) (s : State)
      → is_over c s ≡ true
      → c.num_files ≤ s.fsynced_file2
      → requests c m s ≡ (replicate m none, s)
  final_nulls zero s over l = requests-zero c s
  final_nulls (suc m) s over l =
      requests-cons c m s (get_seq_request-over s over (finish_done s l)) (final_nulls m s over l)

  -- Once all requests of a write test are made, and with --file-fsync-end, the next requests sync
  -- every file not yet synced, in order and once, and all requests after that are null.
  pub final_series :
      (n m : ℕ) (s : State) (k : ℕ)
      → is_over c s ≡ true
      → c.file_fsync_end ≡ true
      → s.fsynced_file2 ≡ k
      → k + n ≡ c.num_files
      → requests c (n + m) s
        ≡ (fsyncs k n ++ replicate m none, record s { fsynced_file2 = c.num_files })
  final_series zero m s k over on e l =
      let q : s.fsynced_file2 ≡ c.num_files = omega arith in
      let none_left : 0 + m ≡ m = omega arith in
      rw none_left (
        final_nulls m s over (omega arith) ∙ λ i.
        (replicate m none, record s { fsynced_file2 = q i }))
  final_series (suc n) m s k over on e l =
      let e' : suc n + m ≡ suc (n + m) = omega arith in
      rw e' (
        requests-cons c (n + m) s (get_seq_request-over s over (finish_next s k on e (omega arith)))
          (final_series n m (record s { fsynced_file2 = k + 1 }) (k + 1) over on refl
            (omega arith)))
