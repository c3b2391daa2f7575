-- ===== src/FileIo/Async/Tests.antt =====
-- A queue that completes operations in the order of their submission, as many as may be given.
use my_sqltutorials.Prelude.{
  ℕ, zero, suc, ◌+◌, ◌<◌, ◌≤◌, ◌≡◌, refl, ap, arith, true, false, Option, none, some, List, [], ◌∷◌,
  leb, if◌then◌else◌, length, take, drop, Bool-cases, inl, inr,
}
use my_sqltutorials.FileIo.{FileOp}
use my_sqltutorials.FileIo.Async.{Oper, Event, Aio, Kernel, submit_all, file_thread_done}
use my_sqltutorials.FileIo.Async.Balance.{total, total_events, IsFair}
use my_sqltutorials.FileIo.Async.Conserves.{idle, AllCounted, submitted-AllCounted}

abbrev complete : Oper → Event
complete o = record { oper = o; res = elim o.type [ FileOp.fsync ↦ 0 | _ ↦ o.len ] }

abbrev complete_all : List Oper → List Event
complete_all [] = []
complete_all (o ∷ os) = complete o ∷ complete_all os

abbrev serve : (nreq backlog : ℕ) → List Oper → Option (List Event × List Oper)
serve nreq backlog queue =
    if leb nreq (length (take backlog queue))
    then some (complete_all (take backlog queue), drop backlog queue)
    else none

abbrev kernel : Kernel
kernel = record { accepts = λ queue o. true; getevents = serve }

length_complete : (os : List Oper) → length (complete_all os) ≡ length os
length_complete [] = refl
length_complete (o ∷ os) = omega (arith, length_complete os)

length-take : (n : ℕ) (os : List Oper) → length (take n os) ≤ n
length-take zero os = omega arith
length-take (suc n) [] = omega arith
length-take (suc n) (o ∷ os) = omega (arith, length-take n os)

total-take :
    (n : ℕ) (os : List Oper) (f : Oper → ℕ)
    → total_events f (complete_all (take n os)) + total f (drop n os) ≡ total f os
total-take zero os f = omega arith
total-take (suc n) [] f = refl
total-take (suc n) (o ∷ os) f = omega (arith, total-take n os f)

serve_inv :
    (nreq backlog : ℕ) (queue left : List Oper) (events : List Event)
    → serve nreq backlog queue ≡ some (events, left)
    → (nreq ≤ length (take backlog queue))
      × (complete_all (take backlog queue) ≡ events)
      × (drop backlog queue ≡ left)
serve_inv nreq backlog queue left events e =
    elim (Bool-cases (leb nreq (length (take backlog queue)))) [
      | inl m ↦ (ground arith, ground arith, ground arith)
      | inr m ↦ absurd (ground arith)
    ]

kernel-IsFair : IsFair kernel
kernel-IsFair = record {
  enough = λ nreq backlog queue left events e.
      let (h, p, q) = serve_inv nreq backlog queue left events e in
      omega (arith, length_complete (take backlog queue), ap length p);
  most = λ nreq backlog queue left events e.
      let (h, p, q) = serve_inv nreq backlog queue left events e in
      omega (arith, length_complete (take backlog queue), ap length p, length-take backlog queue);
  once = λ nreq backlog queue left events f e.
      let (h, p, q) = serve_inv nreq backlog queue left events e in
      rw (← p, ← q) (total-take backlog queue f);
}

abbrev three : List Oper
three =
    record { type = FileOp.write; len = 5 }
    ∷ record { type = FileOp.read; len = 7 }
    ∷ record { type = FileOp.fsync; len = 0 }
    ∷ []

abbrev submitted : Aio
submitted = (submit_all kernel 2 three idle).1

no_failure : (submit_all kernel 2 three idle).0 ≡ false
unfolding submit_all
no_failure = refl

all_done : (file_thread_done kernel 2 submitted).0 ≡ false
unfolding submit_all file_thread_done
all_done = refl

submitted-AllCounted_example :
    (length submitted.queue < 2) × AllCounted three (file_thread_done kernel 2 submitted).1
submitted-AllCounted_example =
    submitted-AllCounted kernel 2 three kernel-IsFair (omega arith) (omega arith) no_failure
      all_done
