-- ===== src/FileIo/Async/Conserves.antt =====
-- The operations of a thread between their submission and their completion.
use my_sqltutorials.Prelude.{
  ℕ, ◌+◌, ◌%◌, ◌<◌, ◌≤◌, ◌≡◌, subst, ap, sym, arith, true, false, none, some, List, [], ◌∷◌, ◌++◌,
  ◌==◌, ltb, Bool-cases, ltb→lt, Option-cases, inl, inr, length, length-append, append_assoc,
  append_nil,
}
use my_sqltutorials.Prelude.Words.{add32, u32_mod, u64_mod}
use my_sqltutorials.FileIo.Async.{
  Oper, Event, Aio, Kernel, verify, receive, file_wait, file_submit_or_wait, file_thread_done,
  submit_all,
}
use my_sqltutorials.FileIo.Async.Balance.{
  total, IsFair, IsBalanced, one_each, length-total, length-total_events, total-append, total-none,
  verify-IsBalanced, queue-verify, is_read, is_write, is_sync, read_bytes, written_bytes,
}

module _ (kernel : Kernel) (fair : IsFair kernel) (backlog : ℕ) (within : backlog < u32_mod) where
  take-IsBalanced :
      (submitted : List Oper) (events : List Event) (left : List Oper) (nreq : ℕ) (a : Aio)
      → IsBalanced submitted [] a
      → kernel.getevents nreq backlog a.queue ≡ some (events, left)
      → IsBalanced submitted events (record a { queue = left })
  take-IsBalanced submitted events left nreq a h e =
      let once = λ (f : Oper → ℕ). fair.once nreq backlog a.queue left events f e in
      record {
        reads = omega (arith, h.reads, once is_read);
        writes = omega (arith, h.writes, once is_write);
        syncs = omega (arith, h.syncs, once is_sync);
        nread = omega (arith, h.nread, once read_bytes);
        nwritten = omega (arith, h.nwritten, once written_bytes);
        pending = omega (
          arith,
          once one_each,
          length-total left,
          length-total a.queue,
          length-total_events events,
        );
        small = h.small;
      }

  some_event :
      (a : Aio) (events : List Event) (left : List Oper)
      → (receive (some (events, left)) a).0 ≡ false
      → receive (some (events, left)) a ≡ verify events (record a { queue = left })
  unfolding receive
  some_event a events left f = elim (Bool-cases (length events == 0)) [
    | inl m ↦ absurd (ground arith)
    | inr m ↦ rw m
  ]

  verified :
      (nreq : ℕ) (a : Aio) (events : List Event) (left : List Oper)
      → kernel.getevents nreq backlog a.queue ≡ some (events, left)
      → (file_wait kernel backlog nreq a).0 ≡ false
      → file_wait kernel backlog nreq a ≡ verify events (record a { queue = left })
  unfolding file_wait
  verified nreq a events left e f = rw e (some_event a events left (rw e at f))

  failed_wait :
      (nreq : ℕ) (a : Aio)
      → kernel.getevents nreq backlog a.queue ≡ none
      → (file_wait kernel backlog nreq a).0 ≡ true
  unfolding file_wait receive
  failed_wait nreq a e = rw e

  wait-IsBalanced :
      (submitted : List Oper) (nreq : ℕ) (a : Aio)
      → IsBalanced submitted [] a
      → (file_wait kernel backlog nreq a).0 ≡ false
      → let b = (file_wait kernel backlog nreq a).1 in
        IsBalanced submitted [] b × (b.nrequests + nreq ≤ a.nrequests)
  wait-IsBalanced submitted nreq a h f =
      elim (Option-cases (kernel.getevents nreq backlog a.queue)) [
        | inl e ↦ absurd (ground (arith, failed_wait nreq a e))
        | inr ((events, left), e) ↦
            let same = verified nreq a events left e f in
            let f' : (verify events (record a { queue = left })).0 ≡ false = rw same at f in
            let b =
              verify-IsBalanced submitted events (record a { queue = left })
                (take-IsBalanced submitted events left nreq a h e) f' in
            let q = queue-verify events (record a { queue = left }) f' in
            rw same (
              b,
              omega (
                arith,
                b.pending,
                h.pending,
                ap length q,
                fair.enough nreq backlog a.queue left events e,
                fair.once nreq backlog a.queue left events one_each e,
                length-total left,
                length-total a.queue,
                length-total_events events,
              ),
            )
      ]

  pushed : (o : Oper) (a : Aio) → Aio
  pushed o a = record a { queue = a.queue ++ o ∷ []; nrequests = add32 a.nrequests 1 }

  push-IsBalanced :
      (submitted : List Oper) (o : Oper) (a : Aio)
      → IsBalanced submitted [] a
      → a.nrequests < backlog
      → IsBalanced (submitted ++ o ∷ []) [] (pushed o a)
  unfolding pushed
  push-IsBalanced submitted o a h l =
      let both = λ (f : Oper → ℕ). total-append f submitted (o ∷ []) in
      let queued = λ (f : Oper → ℕ). total-append f a.queue (o ∷ []) in
      record {
        reads = omega (arith, h.reads, both is_read, queued is_read);
        writes = omega (arith, h.writes, both is_write, queued is_write);
        syncs = omega (arith, h.syncs, both is_sync, queued is_sync);
        nread = omega (arith, h.nread, both read_bytes, queued read_bytes);
        nwritten = omega (arith, h.nwritten, both written_bytes, queued written_bytes);
        pending = omega (arith, h.pending, length-append a.queue (o ∷ []));
        small = omega arith;
      }

  submit-IsBalanced :
      (submitted : List Oper) (o : Oper) (a : Aio)
      → IsBalanced submitted [] a
      → a.nrequests < backlog
      → (file_submit_or_wait kernel backlog o a).0 ≡ false
      → let b = (file_submit_or_wait kernel backlog o a).1 in
        IsBalanced (submitted ++ o ∷ []) [] b × (b.nrequests < backlog)
  unfolding file_submit_or_wait pushed
  submit-IsBalanced submitted o a h l f = elim (Bool-cases (kernel.accepts a.queue o)) [
    | inr m ↦ absurd (ground arith)
    | inl m ↦ elim (Bool-cases (ltb (pushed o a).nrequests backlog)) [
      | inl n ↦ rw (m, n) (push-IsBalanced submitted o a h l, ltb→lt _ _ n)
      | inr n ↦
          let f' : (file_wait kernel backlog 1 (pushed o a)).0 ≡ false = rw (m, n) at f in
          let (b, k) =
            wait-IsBalanced (submitted ++ o ∷ []) 1 (pushed o a) (push-IsBalanced submitted o a h l)
              f' in
          rw (m, n) (b, omega arith)
    ]
  ]

  submit_all-IsBalanced :
      (submitted os : List Oper) (a : Aio)
      → IsBalanced submitted [] a
      → a.nrequests < backlog
      → (submit_all kernel backlog os a).0 ≡ false
      → let b = (submit_all kernel backlog os a).1 in
        IsBalanced (submitted ++ os) [] b × (b.nrequests < backlog)
  unfolding submit_all
  submit_all-IsBalanced submitted [] a h l f =
      (subst (λ s. IsBalanced s [] a) (sym (append_nil submitted)) h, l)
  submit_all-IsBalanced submitted (o ∷ os) a h l f =
      elim (Bool-cases (file_submit_or_wait kernel backlog o a).0) [
        | inl m ↦ absurd (ground arith)
        | inr m ↦
            let b = (file_submit_or_wait kernel backlog o a).1 in
            let (h', l') = submit-IsBalanced submitted o a h l m in
            rw m (
              subst
                (λ s.
                  IsBalanced s [] (submit_all kernel backlog os b).1
                  × ((submit_all kernel backlog os b).1.nrequests < backlog))
                (append_assoc submitted (o ∷ []) os)
                (submit_all-IsBalanced (submitted ++ o ∷ []) os b h' l' (rw m at f)))
      ]

  done-IsBalanced :
      (submitted : List Oper) (a : Aio)
      → IsBalanced submitted [] a
      → (file_thread_done kernel backlog a).0 ≡ false
      → let b = (file_thread_done kernel backlog a).1 in
        IsBalanced submitted [] b × (b.nrequests ≡ 0)
  unfolding file_thread_done
  done-IsBalanced submitted a h f = elim (Bool-cases (ltb 0 a.nrequests)) [
    | inl m ↦
        let (b, k) = wait-IsBalanced submitted a.nrequests a h (rw m at f) in rw m (b, omega arith)
    | inr m ↦ rw m (h, ground arith)
  ]

abbrev pub idle : Aio
idle = record {
  queue = [];
  nrequests = 0;
  read_ops = 0;
  write_ops = 0;
  other_ops = 0;
  bytes_read = 0;
  bytes_written = 0;
}

idle-IsBalanced : IsBalanced [] [] idle
idle-IsBalanced = omega arith

-- What a thread has counted when it is done: each operation once, modulo the counters' words.
pub record AllCounted (os : List Oper) (a : Aio) : Type 0 where
  pub no_queue : length a.queue ≡ 0
  pub reads : a.read_ops % u32_mod ≡ total is_read os % u32_mod
  pub writes : a.write_ops % u32_mod ≡ total is_write os % u32_mod
  pub syncs : a.other_ops % u32_mod ≡ total is_sync os % u32_mod
  pub nread : a.bytes_read % u64_mod ≡ total read_bytes os % u64_mod
  pub nwritten : a.bytes_written % u64_mod ≡ total written_bytes os % u64_mod

balanced-AllCounted :
    (os : List Oper) (a : Aio) → IsBalanced os [] a → a.nrequests ≡ 0 → AllCounted os a
balanced-AllCounted os a h e =
    let z : length a.queue ≡ 0 = omega (arith, h.pending) in
    let left = λ (f : Oper → ℕ). total-none f a.queue z in
    record {
      no_queue = z;
      reads = omega (arith, h.reads, left is_read);
      writes = omega (arith, h.writes, left is_write);
      syncs = omega (arith, h.syncs, left is_sync);
      nread = omega (arith, h.nread, left read_bytes);
      nwritten = omega (arith, h.nwritten, left written_bytes);
    }

-- Where no call fails, a thread never has more operations in the kernel's queue than fit under the
-- backlog, in whatever order they are completed; and once it is done, the queue is empty, and each
-- operation that it submitted is counted once, with its bytes.
pub submitted-AllCounted :
    (kernel : Kernel) (backlog : ℕ) (os : List Oper)
    → IsFair kernel
    → 0 < backlog
    → backlog < u32_mod
    → (submit_all kernel backlog os idle).0 ≡ false
    → (file_thread_done kernel backlog (submit_all kernel backlog os idle).1).0 ≡ false
    → let a = (submit_all kernel backlog os idle).1 in
      (length a.queue < backlog) × AllCounted os (file_thread_done kernel backlog a).1
submitted-AllCounted kernel backlog os fair pos within f g =
    let a = (submit_all kernel backlog os idle).1 in
    let (h, l) =
      submit_all-IsBalanced kernel fair backlog within [] os idle idle-IsBalanced pos f in
    let (h', e) = done-IsBalanced kernel fair backlog within os a h g in
    (omega (arith, h.pending), balanced-AllCounted os (file_thread_done kernel backlog a).1 h' e)
