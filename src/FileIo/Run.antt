-- ===== src/FileIo/Run.antt =====
-- The start of a run of the file I/O test (init_vars, clear_stats and file_init of sb_fileio.c), and
-- the sequential requests from there on.
use my_sqltutorials.Prelude.{
  ℕ, zero, suc, ◌*◌, ◌/◌, ◌%◌, ◌^◌, ◌<◌, ◌≤◌, ◌≡◌, refl, ap, sym, subst, ◌∙◌, arith, Bool, true,
  false, Option, none, some, List, [], ◌∷◌, if◌then◌else◌, ◌>>=◌, >>=-some, some_injective,
}
use native.Mathlib.Nat.{zero-mod, le-div_iff_mul-le}
use my_sqltutorials.FileIo.{FileOp, Request, Config, State}
use my_sqltutorials.FileIo.Sequential.{get_seq_request}
use my_sqltutorials.FileIo.Sequential.Bounds.{IsWalkable, IsWalk, Served, get_seq_request-IsWalk}
use my_sqltutorials.FileIo.Sequential.Order.{cursor, Ordered, get_seq_request-Ordered}
use my_sqltutorials.FileIo.Setup.{Platform, Args, parse_arguments}
use my_sqltutorials.FileIo.Setup.Accepted.{IsAccepted, parse-IsAccepted}

-- init_vars
unfoldable pub init_vars : (validate : Bool) → State → State
init_vars validate s = record s {
  position = 0;
  current_file = 0;
  fsynced_file = 0;
  fsynced_file2 = 0;
  req_performed = 0;
  is_dirty = false;
  prev_req =
      if validate
      then record { file_id = 0; pos = 0; size = 0; operation = FileOp.null }
      else s.prev_req;
}

-- clear_stats, for the counters of a `State`.
unfoldable pub clear_stats : State → State
clear_stats s = record s {
  read_ops = 0;
  write_ops = 0;
  other_ops = 0;
  bytes_read = 0;
  bytes_written = 0;
}

-- file_init: `ready` tells that the files, the asynchronous requests and the percentiles get their
-- memory; `none` is the result 1.
unfoldable pub file_init :
    Platform → Args → (before : Config) → (ready : Bool) → State → Option (Config × State)
unfolding init_vars clear_stats parse_arguments
file_init platform a before ready s = do
  (c, flags) ← parse_arguments platform a before
  if ready then some (c, clear_stats (init_vars c.validate s)) else none

-- The requests of a number of calls, from any threads.
unfoldable pub seq_calls : (calls : ℕ) → Config → State → List (Option Request)
unfolding get_seq_request
seq_calls zero c s = []
seq_calls (suc calls) c s = let (r, _, s') = get_seq_request c s in r ∷ seq_calls calls c s'

abbrev pub AllServed : Config → List (Option Request) → Type 0
AllServed c [] = Unit {0}
AllServed c (r ∷ rs) = Served c r × AllServed c rs

seq_calls-AllServed :
    (calls : ℕ) (c : Config) (s : State)
    → IsWalkable c
    → IsWalk c s
    → AllServed c (seq_calls calls c s)
unfolding seq_calls
seq_calls-AllServed zero c s w k = tt
seq_calls-AllServed (suc calls) c s w k =
    let (served, k') = get_seq_request-IsWalk c s w k in
    (served, seq_calls-AllServed calls c (get_seq_request c s).2 w k')

-- The files have bytes, and without merged requests a whole number of blocks; the product that is
-- the greatest size of a request is an `int`.
pub record FillsFiles (c : Config) : Type 0 where
  pub bytes : c.num_files ≤ c.total_size
  pub product : c.file_block_size * c.file_merged_requests < 2 ^ 31
  pub blocks : c.file_merged_requests ≡ 0 → c.file_size % c.file_block_size ≡ 0

accepted-IsWalkable :
    (a : Args) (before c : Config) → IsAccepted a before c → FillsFiles c → IsWalkable c
accepted-IsWalkable a before c h f = record {
  some_files = h.some_file;
  files_fit = h.few_files;
  some_bytes =
      let one : 1 ≤ c.total_size / c.num_files =
        (le-div_iff_mul-le {k = c.num_files} {x = 1} {y = c.total_size} h.some_file).1
          (omega (arith, f.bytes)) in
      omega (arith, h.share);
  some_request = omega (arith, h.request f.product, h.some_block.0);
  some_block = h.some_block.0;
  whole_blocks = f.blocks;
}

start-IsWalk :
    (c : Config) (s : State) → IsWalkable c → IsWalk c (clear_stats (init_vars c.validate s))
unfolding clear_stats init_vars
start-IsWalk c s w = record {
  cursor = record {
    in_file = w.some_bytes;
    in_files = omega arith;
    at_end = λ e. refl;
    on_block = λ e. zero-mod c.file_block_size;
  };
  sync_in_files = w.some_files;
}

file_init_inv :
    (platform : Platform) (a : Args) (before c : Config) (ready : Bool) (s t : State)
    → file_init platform a before ready s ≡ some (c, t)
    → IsAccepted a before c × (t ≡ clear_stats (init_vars c.validate s))
unfolding file_init
file_init_inv platform a before c false s t e = absurd (ground arith)
file_init_inv platform a before c true s t e =
    let (r, er, e') =
      >>=-some (parse_arguments platform a before)
        (λ r. some (r.0, clear_stats (init_vars r.0.validate s))) (c, t) e in
    subst
      (λ (x : Config × State).
        IsAccepted a before x.0 × (x.1 ≡ clear_stats (init_vars x.0.validate s)))
      (some_injective e') (parse-IsAccepted platform a before r.0 r.1 er, refl)

-- The requests are for the bytes of all files from `o` on, in order, except those to sync.
abbrev pub InOrder : Config → (o : ℕ) → List (Option Request) → Type 0
InOrder c o [] = Unit {0}
InOrder c o (r ∷ rs) = (o' : ℕ) × Ordered c o r o' × InOrder c o' rs

seq_calls-InOrder :
    (calls : ℕ) (c : Config) (s : State)
    → IsWalkable c
    → IsWalk c s
    → InOrder c (cursor c s) (seq_calls calls c s)
unfolding seq_calls
seq_calls-InOrder zero c s w k = tt
seq_calls-InOrder (suc calls) c s w k =
    let s' = (get_seq_request c s).2 in
    (
      cursor c s',
      get_seq_request-Ordered c s w k,
      seq_calls-InOrder calls c s' w (get_seq_request-IsWalk c s w k).1,
    )

start_cursor : (c : Config) (s : State) → cursor c (clear_stats (init_vars c.validate s)) ≡ 0
unfolding clear_stats init_vars
start_cursor c s = omega arith

-- From file_init on, with options that it accepts, a block size times merged requests below 2^31,
-- and files that have bytes and, without merged requests, a whole number of blocks each: every
-- request of any number of calls of file_get_seq_request is for an existing file, within its
-- bytes, and an fsync or not empty; and those that are no fsync go through the bytes of the files
-- in order, from the first byte of the first file on, each from where the one before ended, and
-- start over behind the last byte.
pub file_init-InOrder :
    (platform : Platform) (a : Args) (before c : Config) (ready : Bool) (s t : State) (calls : ℕ)
    → file_init platform a before ready s ≡ some (c, t)
    → FillsFiles c
    → AllServed c (seq_calls calls c t) × InOrder c 0 (seq_calls calls c t)
file_init-InOrder platform a before c ready s t calls e f =
    let (h, start) = file_init_inv platform a before c ready s t e in
    let w = accepted-IsWalkable a before c h f in
    let k = subst (IsWalk c) (sym start) (start-IsWalk c s w) in
    let from_first : cursor c t ≡ 0 = ap (cursor c) start ∙ start_cursor c s in
    (
      seq_calls-AllServed calls c t w k,
      subst (λ o. InOrder c o (seq_calls calls c t)) from_first (seq_calls-InOrder calls c t w k),
    )
