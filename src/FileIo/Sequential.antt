-- ===== src/FileIo/Sequential.antt =====
-- file_get_seq_request and check_seq_req: requests that walk through the files block by block.
pub mod Bounds
pub mod Order
pub mod Warnings
pub mod Syncs
use my_sqltutorials.Prelude.{
  ℕ, ◌+◌, ◌-◌, ◌%◌, Bool, true, false, not, Option, none, some, List, [], ◌∷◌, ltb, leb, ◌==◌, ◌&&◌,
  ◌||◌, if◌then◌else◌,
}
use my_sqltutorials.Prelude.Words.{add32, sub32}
use my_sqltutorials.FileIo.{FileOp, TestMode, Request, Config, State, is_write, fsync_of}

-- The warnings of check_seq_req.
pub data SeqWarning : Type 0 where
  file_difference position_difference invalid_file_switch : SeqWarning

-- `r->pos - prev_req->pos != prev_req->size` is written with a sum.
unfoldable pub check_seq_req : Config → Request → Request → Option SeqWarning
check_seq_req c prev r = elim r.operation [
  | FileOp.fsync ↦ none
  | FileOp.null ↦ none
  | _ ↦ elim prev.operation [ FileOp.null ↦ none | _ ↦ compared ]
]
  where
    compared : Option SeqWarning
    compared =
        if ltb 1 (sub32 r.file_id prev.file_id)
          && not (r.file_id == 0 && prev.file_id == sub32 c.num_files 1)
        then some file_difference
        else if r.file_id == prev.file_id
        then (if r.pos == prev.pos + prev.size then none else some position_difference)
        else if not (prev.pos + prev.size == c.file_size) || not (r.pos == 0)
        then some invalid_file_switch
        else none

abbrev pub seq_operation : TestMode → FileOp
seq_operation TestMode.write = FileOp.write
seq_operation TestMode.rewrite = FileOp.write
seq_operation _ = FileOp.read

-- The final fsync requests, one for each file, once all requests are made.
unfoldable pub finish : Config → FileOp → State → Option Request × State
finish c op s =
    if c.file_fsync_end && is_write op && ltb s.fsynced_file2 c.num_files
    then (some (fsync_of s.fsynced_file2), record s { fsynced_file2 = add32 s.fsynced_file2 1 })
    else (none, s)

-- A periodic fsync request: after the last file the series is over.
unfoldable pub periodic : Config → State → Option Request × State
periodic c s =
    let next = add32 s.fsynced_file 1 in
    (
      some (fsync_of s.fsynced_file),
      (if next == c.num_files
          then record s { fsynced_file = 0; is_dirty = false }
          else record s { fsynced_file = next }),
    )

-- Back to the first file, if all files are processed.
unfoldable pub rewind : Config → State → State
rewind c s =
    if s.current_file == c.num_files then record s { position = 0; current_file = 0 } else s

-- `file_size - position` is only reached at a position within the file (Bounds).
unfoldable pub next_request : Config → FileOp → State → Request
next_request c op s = record {
  file_id = s.current_file;
  pos = s.position;
  size =
      if ltb 0 c.file_merged_requests
      then (if leb (s.position + c.file_max_request_size) c.file_size
          then c.file_max_request_size
          else c.file_size - s.position)
      else c.file_block_size;
  operation = op;
}

-- The cursor behind a request; at the end of the file it moves to the next file.
unfoldable pub advance : Config → Request → State → State
advance c r s =
    if s.position + r.size == c.file_size
    then record s { position = 0; current_file = add32 s.current_file 1 }
    else record s { position = s.position + r.size }

-- The counters of a read or a write.
unfoldable pub charge : FileOp → State → State
charge op s = record s {
  req_performed = add32 s.req_performed 1;
  is_dirty = is_write op || s.is_dirty;
}

-- The state in which the request is made, and the request.
abbrev pub ready : Config → FileOp → State → State
ready c op s = rewind c (charge op s)

abbrev pub issued : Config → FileOp → State → Request
issued c op s = next_request c op (ready c op s)

-- Reads and writes: the request, the warning of the validation, and the new state.
unfoldable pub transfer : Config → FileOp → State → Option Request × Option SeqWarning × State
transfer c op s =
    let r = issued c op s in
    let s' = advance c r (ready c op s) in
    if c.validate
    then (some r, check_seq_req c s'.prev_req r, record s' { prev_req = r })
    else (some r, none, s')

abbrev pub is_over : Config → State → Bool
is_over c s = ltb 0 c.max_requests && leb c.max_requests s.req_performed

abbrev pub is_sync_due : Config → State → Bool
is_sync_due c s =
    not (c.file_fsync_freq == 0) && s.is_dirty && (s.req_performed % c.file_fsync_freq == 0)

-- `none` as the request is SB_REQ_TYPE_NULL.
unfoldable pub get_seq_request : Config → State → Option Request × Option SeqWarning × State
get_seq_request c s =
    let op = seq_operation c.test_mode in
    if is_over c s
    then (let (r, s') = finish c op s in (r, none, s'))
    else if is_write op && is_sync_due c s
    then (let (r, s') = periodic c s in (r, none, s'))
    else transfer c op s
