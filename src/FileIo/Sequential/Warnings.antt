-- ===== src/FileIo/Sequential/Warnings.antt =====
-- check_seq_req on the requests of the walk: each continues where the one before it ended.
use my_sqltutorials.Prelude.{
  ℕ, suc, ◌+◌, ◌≤◌, ◌<◌, ◌≡◌, refl, arith, Bool, true, false, none, some, ◌&&◌, ◌⊎◌, inl, inr,
}
use my_sqltutorials.Prelude.Words.{u32_mod}
use my_sqltutorials.FileIo.{FileOp, TestMode, Request, Config, State}
use my_sqltutorials.FileIo.Sequential.{
  position_difference, check_seq_req, rewind, next_request, advance, charge, ready, issued,
  transfer, finish, periodic, get_seq_request, seq_operation, is_over, is_sync_due,
}
use my_sqltutorials.FileIo.Sequential.Bounds.{IsWalkable, InBounds, IsWalk, issued-InBounds}

-- The last transfer `r` ended where the cursor stands: in the same file, or at the end of the file
-- before.
pub record Ends (c : Config) (r : Request) (position current_file : ℕ) : Type 0 where
  pub file_exists : r.file_id < c.num_files
  pub meets :
      ((r.file_id ≡ current_file) × (r.pos + r.size ≡ position) × (0 < position))
      ⊎ ((suc r.file_id ≡ current_file) × (r.pos + r.size ≡ c.file_size) × (position ≡ 0))

abbrev pub IsLinked : Config → State → Type 0
IsLinked c s = (s.prev_req.operation ≡ FileOp.null) ⊎ Ends c s.prev_req s.position s.current_file

-- The operations that a walk makes.
abbrev pub IsTransfer : FileOp → Type 0
IsTransfer op = (op ≡ FileOp.read) ⊎ (op ≡ FileOp.write)

-- The request behind a cursor that has ended `p`, after the rewind.
record Continues (c : Config) (p r : Request) : Type 0 where
  file_exists : p.file_id < c.num_files
  continues :
      ((r.file_id ≡ p.file_id) × (r.pos ≡ p.pos + p.size))
      ⊎ ((r.file_id ≡ suc p.file_id) × (p.pos + p.size ≡ c.file_size) × (r.pos ≡ 0))
      ⊎ ((r.file_id ≡ 0)
          × (suc p.file_id ≡ c.num_files)
          × (p.pos + p.size ≡ c.file_size)
          × (r.pos ≡ 0))

issued-Continues :
    (c : Config) (op : FileOp) (s : State) (p : Request)
    → IsWalkable c
    → Ends c p s.position s.current_file
    → Continues c p (issued c op s)
unfolding charge rewind next_request
issued-Continues c op s p w e = ground arith

check-Continues :
    (c : Config) (p r : Request)
    → 2 ≤ c.num_files
    → c.num_files < u32_mod
    → r.file_id < c.num_files
    → Continues c p r
    → check_seq_req c p r ≡ none
unfolding check_seq_req
check-Continues c p r two fit re k = ground arith

advance-Ends :
    (c : Config) (r : Request) (s : State)
    → c.num_files < u32_mod
    → InBounds c r
    → r.file_id ≡ s.current_file
    → r.pos ≡ s.position
    → let s' = advance c r s in Ends c r s'.position s'.current_file
unfolding advance
advance-Ends c r s w b e e' = ground arith

issued_at :
    (c : Config) (op : FileOp) (s : State)
    → let r = issued c op s in
      (r.file_id ≡ (ready c op s).current_file)
      × (r.pos ≡ (ready c op s).position)
      × (r.operation ≡ op)
unfolding next_request
issued_at c op s = (refl, refl, refl)

prev_req-moved :
    (c : Config) (op : FileOp) (s : State) (r : Request)
    → (advance c r (ready c op s)).prev_req ≡ s.prev_req
unfolding advance rewind charge
prev_req-moved c op s r = ground arith

check_null : (c : Config) (p r : Request) → p.operation ≡ FileOp.null → check_seq_req c p r ≡ none
unfolding check_seq_req
check_null c p r e = ground arith

module _ {c : Config} (w : IsWalkable c) (on : c.validate ≡ true) (s : State) (k : IsWalk c s)
    (op : FileOp) where
  transfer-IsLinked : IsLinked c (transfer c op s).2
  unfolding transfer
  transfer-IsLinked = ground (
    arith,
    issued-InBounds w s k op,
    issued_at c op s,
    advance-Ends c (issued c op s) (ready c op s),
  )

  transfer_quiet : 2 ≤ c.num_files → IsLinked c s → (transfer c op s).1 ≡ none
  unfolding transfer
  transfer_quiet two (inl e) =
      ground
        (arith, prev_req-moved c op s (issued c op s), check_null c s.prev_req (issued c op s) e)
  transfer_quiet two (inr e) = ground (
    arith,
    prev_req-moved c op s (issued c op s),
    check-Continues c s.prev_req (issued c op s) two w.files_fit
        (issued-InBounds w s k op).file_exists (issued-Continues c op s s.prev_req w e),
  )

sync-IsLinked :
    (c : Config) (op : FileOp) (s : State)
    → IsLinked c s
    → IsLinked c (finish c op s).1 × IsLinked c (periodic c s).1
unfolding finish periodic
sync-IsLinked c op s h = ground arith

-- With walkable options, at least two files and validation on, validation finds nothing to
-- complain about: each read or write continues where the one before it ended, in the same file or
-- at the start of the next one, and this is kept.
pub get_seq_request-IsLinked :
    (c : Config) (s : State)
    → IsWalkable c
    → 2 ≤ c.num_files
    → c.validate ≡ true
    → IsWalk c s
    → IsLinked c s
    → let (_, warning, s') = get_seq_request c s in (warning ≡ none) × IsLinked c s'
unfolding get_seq_request
get_seq_request-IsLinked c s w two on k h =
    let op = seq_operation c.test_mode in
    ground (
      arith,
      transfer-IsLinked w on s k op,
      transfer_quiet w on s k op two h,
      sync-IsLinked c op s h,
    )

check_again :
    (c : Config) (p r : Request)
    → IsTransfer p.operation
    → IsTransfer r.operation
    → p.file_id ≡ 0
    → r.file_id ≡ 0
    → r.pos ≡ 0
    → 0 < p.pos + p.size
    → check_seq_req c p r ≡ some position_difference
unfolding check_seq_req
check_again c p r o o' e e' z l = ground arith

seq_operation-IsTransfer : (m : TestMode) → IsTransfer (seq_operation m)
seq_operation-IsTransfer TestMode.write = inr refl
seq_operation-IsTransfer TestMode.rewrite = inr refl
seq_operation-IsTransfer _ = inl refl

not_due : (b : Bool) → (b && false) ≡ false
not_due true = refl
not_due false = refl

get_seq_request-transfer :
    (c : Config) (s : State)
    → is_over c s ≡ false
    → is_sync_due c s ≡ false
    → get_seq_request c s ≡ transfer c (seq_operation c.test_mode) s
unfolding get_seq_request
get_seq_request-transfer c s over due = rw (over, due, not_due)

issued_rewound :
    (c : Config) (op : FileOp) (s : State)
    → s.current_file ≡ c.num_files
    → ((issued c op s).file_id ≡ 0) × ((issued c op s).pos ≡ 0)
unfolding charge rewind next_request
issued_rewound c op s e = ground arith

transfer_warns :
    (c : Config) (op : FileOp) (s : State)
    → IsTransfer op
    → IsWalkable c
    → c.num_files ≡ 1
    → c.validate ≡ true
    → IsTransfer s.prev_req.operation
    → Ends c s.prev_req s.position s.current_file
    → s.current_file ≡ 1
    → (transfer c op s).1 ≡ some position_difference
unfolding transfer
transfer_warns c op s o w one on t e end = ground (
  arith,
  prev_req-moved c op s (issued c op s),
  issued_at c op s,
  issued_rewound c op s,
  check_again c s.prev_req (issued c op s),
)

-- With a single file, walkable options and validation on, the read or write that starts over
-- behind the end of the file is reported as a position difference.
pub single_file_warns :
    (c : Config) (s : State)
    → IsWalkable c
    → c.num_files ≡ 1
    → c.validate ≡ true
    → IsTransfer s.prev_req.operation
    → Ends c s.prev_req s.position s.current_file
    → s.current_file ≡ 1
    → is_over c s ≡ false
    → is_sync_due c s ≡ false
    → (get_seq_request c s).1 ≡ some position_difference
single_file_warns c s w one on t e end over due =
    rw (get_seq_request-transfer c s over due)
      (transfer_warns c _ s (seq_operation-IsTransfer c.test_mode) w one on t e end)
