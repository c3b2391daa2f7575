-- ===== src/FileIo/Sequential/Bounds.antt =====
-- Sequential requests stay inside the files.
use my_sqltutorials.Prelude.{ℕ, ◌+◌, ◌%◌, ◌≤◌, ◌<◌, ◌≡◌, arith, Option, none, some, ◌⊎◌}
use my_sqltutorials.Prelude.Words.{u32_mod}
use my_sqltutorials.FileIo.{FileOp, Request, Config, State}
use my_sqltutorials.FileIo.Sequential.{
  rewind, next_request, advance, charge, ready, issued, transfer, finish, periodic, get_seq_request,
  seq_operation,
}

-- What the walk needs of the options: with merged requests any sizes, without them files that hold a
-- whole number of blocks.
pub record IsWalkable (c : Config) : Type 0 where
  pub some_files : 0 < c.num_files
  pub files_fit : c.num_files < u32_mod
  pub some_bytes : 0 < c.file_size
  pub some_request : 0 < c.file_max_request_size
  pub some_block : 0 < c.file_block_size
  pub whole_blocks : c.file_merged_requests ≡ 0 → c.file_size % c.file_block_size ≡ 0

-- Where the cursor can be.
pub record IsCursor (c : Config) (s : State) : Type 0 where
  pub in_file : s.position < c.file_size
  pub in_files : s.current_file ≤ c.num_files
  pub at_end : s.current_file ≡ c.num_files → s.position ≡ 0
  pub on_block : c.file_merged_requests ≡ 0 → s.position % c.file_block_size ≡ 0

-- A request for bytes inside an existing file.
pub record InBounds (c : Config) (r : Request) : Type 0 where
  pub file_exists : r.file_id < c.num_files
  pub bytes_exist : r.pos + r.size ≤ c.file_size
  pub not_empty : 0 < r.size

pub next_block : (a b c : ℕ) → 0 < b → a % b ≡ 0 → c % b ≡ 0 → a < c → a + b ≤ c
next_block a b c h p q l = grind arith

pub mod-add_self : (a b : ℕ) → 0 < b → a % b ≡ 0 → (a + b) % b ≡ 0
mod-add_self a b h p = grind arith

mod-zero : (b : ℕ) → 0 % b ≡ 0
mod-zero b = grind arith

module _ {c : Config} (w : IsWalkable c) where
  -- Behind a rewind the cursor is in an existing file.
  rewind-IsCursor :
      (s : State)
      → IsCursor c s
      → IsCursor c (rewind c s) × ((rewind c s).current_file < c.num_files)
  unfolding rewind
  rewind-IsCursor s k = ground (arith, mod-zero c.file_block_size)

  next_request-InBounds :
      (op : FileOp) (s : State)
      → IsCursor c s
      → s.current_file < c.num_files
      → InBounds c (next_request c op s)
  unfolding next_request
  next_request-InBounds op s k l =
      ground (arith, next_block s.position c.file_block_size c.file_size)

  advance-IsCursor :
      (op : FileOp) (s : State)
      → IsCursor c s
      → s.current_file < c.num_files
      → IsCursor c (advance c (next_request c op s) s)
  unfolding advance next_request
  advance-IsCursor op s k l = ground (
    arith,
    next_block s.position c.file_block_size c.file_size,
    mod-add_self s.position c.file_block_size,
    mod-zero c.file_block_size,
  )

-- The state of a walk: its cursor, and the next file to be synced in a periodic series.
pub record IsWalk (c : Config) (s : State) : Type 0 where
  pub cursor : IsCursor c s
  pub sync_in_files : s.fsynced_file < c.num_files

-- A request that can be served: on an existing file, within its bytes, and an fsync or not empty.
pub record IsServable (c : Config) (r : Request) : Type 0 where
  pub file_exists : r.file_id < c.num_files
  pub bytes_exist : r.pos + r.size ≤ c.file_size
  pub fsync_or_bytes : (r.operation ≡ FileOp.fsync) ⊎ (0 < r.size)

abbrev pub Served : Config → Option Request → Type 0
Served c none = Unit {0}
Served c (some r) = IsServable c r

module _ {c : Config} (w : IsWalkable c) (s : State) (k : IsWalk c s) where
  finish-IsWalk : (op : FileOp) → Served c (finish c op s).0 × IsWalk c (finish c op s).1
  unfolding finish
  finish-IsWalk op = ground arith

  periodic-IsWalk : Served c (periodic c s).0 × IsWalk c (periodic c s).1
  unfolding periodic
  periodic-IsWalk = ground arith

module _ {c : Config} (w : IsWalkable c) (s : State) (k : IsWalk c s) (op : FileOp) where
  charge-IsCursor : IsCursor c (charge op s)
  unfolding charge
  charge-IsCursor = ground arith

  pub ready-IsCursor : IsCursor c (ready c op s) × ((ready c op s).current_file < c.num_files)
  ready-IsCursor = rewind-IsCursor w (charge op s) charge-IsCursor

  pub issued-InBounds : InBounds c (issued c op s)
  issued-InBounds = next_request-InBounds w op (ready c op s) ready-IsCursor.0 ready-IsCursor.1

  moved-IsCursor : IsCursor c (advance c (issued c op s) (ready c op s))
  moved-IsCursor = advance-IsCursor w op (ready c op s) ready-IsCursor.0 ready-IsCursor.1

  fsynced_file-moved : (advance c (issued c op s) (ready c op s)).fsynced_file ≡ s.fsynced_file
  unfolding advance rewind charge
  fsynced_file-moved = ground arith

  pub transfer-IsWalk : Served c (transfer c op s).0 × IsWalk c (transfer c op s).2
  unfolding transfer
  transfer-IsWalk = ground (arith, issued-InBounds, moved-IsCursor, fsynced_file-moved)

-- While the options are walkable, every request of file_get_seq_request is for an existing file and
-- stays within its bytes, and the cursors stay in range.
pub get_seq_request-IsWalk :
    (c : Config) (s : State)
    → IsWalkable c
    → IsWalk c s
    → let (r, _, s') = get_seq_request c s in Served c r × IsWalk c s'
unfolding get_seq_request
get_seq_request-IsWalk c s w k = ground (
  arith,
  transfer-IsWalk w s k (seq_operation c.test_mode),
  periodic-IsWalk w s k,
  finish-IsWalk w s k (seq_operation c.test_mode),
)
