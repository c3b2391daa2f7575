-- ===== src/FileIo/Async.antt =====
-- The queue of asynchronous requests (file_submit_or_wait, file_wait, file_thread_done of sb_fileio.c),
-- with HAVE_LIBAIO. The kernel's queue is a parameter; allocation succeeds.
pub mod Balance
pub mod Conserves
mod Tests
use my_sqltutorials.Prelude.{
  ℕ, zero, suc, ◌+◌, ◌<◌, ◌≡◌, arith, Bool, true, false, not, Option, none, some, List, [], ◌∷◌,
  ◌++◌, map, ◌==◌, ltb, if◌then◌else◌, length,
}
use my_sqltutorials.Prelude.Words.{add32, add64, sub32}
use my_sqltutorials.FileIo.{FileOp}

-- sb_aio_oper_t
pub record Oper : Type 0 where
  pub type : FileOp
  pub len : ℕ

-- io_event: the operation that is completed, and its result.
pub record Event : Type 0 where
  pub oper : Oper
  pub res : ℕ

-- sb_aio_context_t with the operations that the kernel has, and the counters of the test.
pub record Aio : Type 0 where
  pub queue : List Oper
  pub nrequests : ℕ
  pub read_ops : ℕ
  pub write_ops : ℕ
  pub other_ops : ℕ
  pub bytes_read : ℕ
  pub bytes_written : ℕ

-- `accepts` is io_submit; `getevents` gives the events for the number wanted and the operations that
-- are left, and `none` for a failure.
pub record Kernel : Type 0 where
  pub accepts : List Oper → Oper → Bool
  pub getevents : (nreq backlog : ℕ) → List Oper → Option (List Event × List Oper)

-- The counters for an operation that succeeded.
unfoldable pub count_oper : Oper → Aio → Aio
count_oper o a = elim o.type [
  | FileOp.null ↦ a
  | FileOp.fsync ↦ record a { other_ops = add32 a.other_ops 1 }
  | FileOp.read ↦ record a { read_ops = add32 a.read_ops 1; bytes_read = add64 a.bytes_read o.len }
  | FileOp.write ↦ record a {
    write_ops = add32 a.write_ops 1;
    bytes_written = add64 a.bytes_written o.len;
  }
]

abbrev pub is_failed : Event → Bool
is_failed e = elim e.oper.type [
  | FileOp.null ↦ false
  | FileOp.fsync ↦ not (e.res == 0)
  | FileOp.read ↦ not (e.res == e.oper.len)
  | FileOp.write ↦ not (e.res == e.oper.len)
]

-- The loop over the events; the flag is the result 1.
unfoldable pub verify : List Event → Aio → Bool × Aio
unfolding count_oper
verify [] a = (false, a)
verify (e ∷ events) a =
    let counted = count_oper e.oper a in
    let rest = verify events (record counted { nrequests = sub32 counted.nrequests 1 }) in
    if is_failed e then (true, a) else rest

-- Behind io_getevents: with no event it has failed too.
unfoldable pub receive : Option (List Event × List Oper) → Aio → Bool × Aio
unfolding verify
receive none a = (true, a)
receive (some (events, left)) a =
    if length events == 0
    then (true, record a { queue = left })
    else verify events (record a { queue = left })

-- Waits for a number of events.
unfoldable pub file_wait : Kernel → (backlog nreq : ℕ) → Aio → Bool × Aio
unfolding receive
file_wait kernel backlog nreq a = receive (kernel.getevents nreq backlog a.queue) a

unfoldable pub file_submit_or_wait : Kernel → (backlog : ℕ) → Oper → Aio → Bool × Aio
unfolding file_wait
file_submit_or_wait kernel backlog o a =
    if not (kernel.accepts a.queue o)
    then (true, a)
    else let b = record a { queue = a.queue ++ o ∷ []; nrequests = add32 a.nrequests 1 } in
      if ltb b.nrequests backlog then (false, b) else file_wait kernel backlog 1 b

-- For the asynchronous mode.
unfoldable pub file_thread_done : Kernel → (backlog : ℕ) → Aio → Bool × Aio
unfolding file_wait
file_thread_done kernel backlog a =
    if ltb 0 a.nrequests then file_wait kernel backlog a.nrequests a else (false, a)

-- The operations are submitted one after the other, up to the first that fails, and the thread is
-- done.
unfoldable pub submit_all : Kernel → (backlog : ℕ) → List Oper → Aio → Bool × Aio
unfolding file_submit_or_wait
submit_all kernel backlog [] a = (false, a)
submit_all kernel backlog (o ∷ os) a =
    let (failed, b) = file_submit_or_wait kernel backlog o a in
    let rest = submit_all kernel backlog os b in if failed then (true, b) else rest
