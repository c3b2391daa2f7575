-- ===== src/FileIo/Async/Balance.antt =====
-- What the counters of asynchronous requests stand for.
use my_sqltutorials.Prelude.{
  ℕ, ◌+◌, ◌%◌, ◌<◌, ◌≤◌, ◌≡◌, refl, ◌∙◌, arith, false, some, List, [], ◌∷◌, ◌++◌, Bool-cases, inl,
  inr, length,
}
use my_sqltutorials.Prelude.Words.{sub32, u32_mod, u64_mod}
use my_sqltutorials.FileIo.{FileOp}
use my_sqltutorials.FileIo.Async.{Oper, Event, Aio, Kernel, count_oper, is_failed, verify}

-- A measure of operations, summed.
abbrev pub total : (Oper → ℕ) → List Oper → ℕ
total f [] = 0
total f (o ∷ os) = f o + total f os

abbrev pub total_events : (Oper → ℕ) → List Event → ℕ
total_events f [] = 0
total_events f (e ∷ es) = f e.oper + total_events f es

-- What is documented of io_getevents: at least as many events as wanted and at most `backlog` are
-- given, for operations of the queue, each of them once; the others are left.
pub record IsFair (k : Kernel) : Type 0 where
  pub enough :
      (nreq backlog : ℕ) (queue left : List Oper) (events : List Event)
      → k.getevents nreq backlog queue ≡ some (events, left)
      → nreq ≤ length events
  pub most :
      (nreq backlog : ℕ) (queue left : List Oper) (events : List Event)
      → k.getevents nreq backlog queue ≡ some (events, left)
      → length events ≤ backlog
  pub once :
      (nreq backlog : ℕ) (queue left : List Oper) (events : List Event) (f : Oper → ℕ)
      → k.getevents nreq backlog queue ≡ some (events, left)
      → total_events f events + total f left ≡ total f queue

abbrev pub one_each : Oper → ℕ
one_each o = 1

pub length-total : (os : List Oper) → total one_each os ≡ length os
length-total [] = refl
length-total (o ∷ os) = omega (arith, length-total os)

pub length-total_events : (es : List Event) → total_events one_each es ≡ length es
length-total_events [] = refl
length-total_events (e ∷ es) = omega (arith, length-total_events es)

pub total-append : (f : Oper → ℕ) (os ps : List Oper) → total f (os ++ ps) ≡ total f os + total f ps
total-append f [] ps = omega arith
total-append f (o ∷ os) ps = omega (arith, total-append f os ps)

pub total-none : (f : Oper → ℕ) (os : List Oper) → length os ≡ 0 → total f os ≡ 0
total-none f [] h = refl
total-none f (o ∷ os) h = absurd (omega arith)

-- What each counter counts of an operation.
abbrev pub is_read : Oper → ℕ
is_read o = elim o.type [ FileOp.read ↦ 1 | _ ↦ 0 ]

abbrev pub is_write : Oper → ℕ
is_write o = elim o.type [ FileOp.write ↦ 1 | _ ↦ 0 ]

abbrev pub is_sync : Oper → ℕ
is_sync o = elim o.type [ FileOp.fsync ↦ 1 | _ ↦ 0 ]

abbrev pub read_bytes : Oper → ℕ
read_bytes o = elim o.type [ FileOp.read ↦ o.len | _ ↦ 0 ]

abbrev pub written_bytes : Oper → ℕ
written_bytes o = elim o.type [ FileOp.write ↦ o.len | _ ↦ 0 ]

-- For operations submitted so far: what the counters have, the events at hand and the queue are all
-- of them, and nrequests counts the last two. The counters wrap.
pub record IsBalanced (submitted : List Oper) (events : List Event) (a : Aio) : Type 0 where
  pub reads :
      (a.read_ops + total_events is_read events + total is_read a.queue) % u32_mod
      ≡ total is_read submitted % u32_mod
  pub writes :
      (a.write_ops + total_events is_write events + total is_write a.queue) % u32_mod
      ≡ total is_write submitted % u32_mod
  pub syncs :
      (a.other_ops + total_events is_sync events + total is_sync a.queue) % u32_mod
      ≡ total is_sync submitted % u32_mod
  pub nread :
      (a.bytes_read + total_events read_bytes events + total read_bytes a.queue) % u64_mod
      ≡ total read_bytes submitted % u64_mod
  pub nwritten :
      (a.bytes_written + total_events written_bytes events + total written_bytes a.queue) % u64_mod
      ≡ total written_bytes submitted % u64_mod
  pub pending : a.nrequests ≡ length events + length a.queue
  pub small : a.nrequests < u32_mod

count-IsBalanced :
    (submitted : List Oper) (e : Event) (events : List Event) (a : Aio)
    → IsBalanced submitted (e ∷ events) a
    → let c = count_oper e.oper a in
      IsBalanced submitted events (record c { nrequests = sub32 c.nrequests 1 })
unfolding count_oper
count-IsBalanced submitted e events a h = ground arith

pub verify-IsBalanced :
    (submitted : List Oper) (events : List Event) (a : Aio)
    → IsBalanced submitted events a
    → (verify events a).0 ≡ false
    → IsBalanced submitted [] (verify events a).1
unfolding verify
verify-IsBalanced submitted [] a h f = h
verify-IsBalanced submitted (e ∷ events) a h f = elim (Bool-cases (is_failed e)) [
  | inl m ↦ absurd (ground arith)
  | inr m ↦
      let c = count_oper e.oper a in
      rw m (
        verify-IsBalanced submitted events (record c { nrequests = sub32 c.nrequests 1 })
          (count-IsBalanced submitted e events a h) (rw m at f))
]

queue-count : (o : Oper) (a : Aio) → (count_oper o a).queue ≡ a.queue
unfolding count_oper
queue-count o a = ground arith

pub queue-verify :
    (events : List Event) (a : Aio)
    → (verify events a).0 ≡ false
    → (verify events a).1.queue ≡ a.queue
unfolding verify
queue-verify [] a f = refl
queue-verify (e ∷ events) a f = elim (Bool-cases (is_failed e)) [
  | inl m ↦ absurd (ground arith)
  | inr m ↦
      let c = count_oper e.oper a in
      rw m (
        queue-verify events (record c { nrequests = sub32 c.nrequests 1 }) (rw m at f)
        ∙ queue-count e.oper a)
]
