-- ===== src/Runner/Queue/Fifo.antt =====
-- The queue hands out the times of the events in the order in which they were generated, and never
-- writes to an element that is still linked.
use my_sqltutorials.Prelude.{
  ℕ, zero, suc, ◌+◌, ◌%◌, ◌≤◌, ◌<◌, ◌≡◌, refl, ap, ap₂, sym, ◌∙◌, arith, Bool, true, false, Option,
  none, some, List, [], ◌∷◌, ◌++◌, map, if◌then◌else◌, length,
}
use my_sqltutorials.Prelude.{append_assoc}
use my_sqltutorials.Prelude.Int.{pos, ◌+ℤ◌}
use my_sqltutorials.Runner.Queue.{
  EventQueue, no_events, max_queue_len, add_event, take_event, finish_event,
}
use my_sqltutorials.Runner.Queue.Window.{
  window, window-append, length-window, window-times, next_is,
}

-- What the threads do, in the order in which they hold the mutex.
pub data QueueStep : Type 0 where
  adds : (time : ℕ) → QueueStep
  takes finishes : QueueStep

-- The times generated, the times taken, and the queue.
pub record Handed : Type 0 where
  pub generated : List ℕ
  pub taken : List ℕ
  pub queue : EventQueue

-- The thread that has ended adds nothing, and a thread that waits takes nothing.
unfoldable pub queue_step : QueueStep → Handed → Handed
queue_step (adds time) h =
    if h.queue.ended
    then h
    else record h { generated = h.generated ++ time ∷ []; queue = add_event time h.queue }
queue_step takes h = elim (take_event 0 h.queue) [
  | none ↦ h
  | some (time, q) ↦ record h { taken = h.taken ++ time ∷ []; queue = q }
]
queue_step finishes h = record h { queue = finish_event h.queue }

unfoldable pub queue_steps : List QueueStep → Handed → Handed
queue_steps [] h = h
queue_steps (s ∷ ss) h = queue_steps ss (queue_step s h)

-- What every interleaving keeps: `a` events have been taken, and `n` are linked.
record IsFifo (h : Handed) : Type 0 where
  a : ℕ
  n : ℕ
  linked : h.queue.event_queue ≡ window a n
  measured : h.queue.event_queue_length ≡ n
  in_order : h.generated ≡ h.taken ++ map h.queue.event_time (window a n)
  bounded : n ≤ max_queue_len
  open_until_full :
      h.queue.ended ≡ false
      → (n < max_queue_len)
        × (h.queue.i ≡ (a + n) % max_queue_len)
        × (h.queue.queue_is_full ≡ false)

add-IsFifo :
    (time : ℕ) (h : Handed)
    → IsFifo h
    → h.queue.ended ≡ false
    → IsFifo (record h { generated = h.generated ++ time ∷ []; queue = add_event time h.queue })
unfolding add_event
add-IsFifo time h f e =
    let (less, at, free) = f.open_until_full e in
    record {
      a = f.a;
      n = suc f.n;
      linked = ap₂ (λ l j. l ++ j ∷ []) f.linked at ∙ window-append f.a f.n;
      measured = omega (arith, f.measured);
      in_order =
          ap (λ l. l ++ time ∷ []) f.in_order
          ∙ append_assoc h.taken (map h.queue.event_time (window f.a f.n)) (time ∷ [])
          ∙ ap (λ l. h.taken ++ l)
              (sym (window-times h.queue.event_time f.a f.n h.queue.i time less at));
      bounded = omega (arith, less);
      open_until_full = λ o. ground (arith, next_is h.queue.i f.a f.n, f.measured);
    }

-- What take_event gives for the linked elements `window a n`.
abbrev taken_from : ℕ → ℕ → EventQueue → Option (ℕ × EventQueue)
taken_from a zero q = none
taken_from a (suc n) q = some (
  q.event_time (a % max_queue_len),
  record q {
    event_queue = window (suc a) n;
    event_queue_length = n;
    concurrency = q.concurrency +ℤ pos 1;
  },
)

take-window :
    (q : EventQueue) (a n : ℕ)
    → q.event_queue ≡ window a n
    → q.event_queue_length ≡ n
    → take_event 0 q ≡ taken_from a n q
unfolding take_event
take-window q a zero e l = ground arith
take-window q a (suc n) e l = ground arith

take-IsFifo : (h : Handed) (f : IsFifo h) → IsFifo (queue_step takes h)
unfolding queue_step
take-IsFifo h f = go f.n f.linked f.measured f.in_order f.bounded f.open_until_full
  where
    go :
        (n : ℕ)
        → h.queue.event_queue ≡ window f.a n
        → h.queue.event_queue_length ≡ n
        → h.generated ≡ h.taken ++ map h.queue.event_time (window f.a n)
        → n ≤ max_queue_len
        → (h.queue.ended ≡ false
            → (n < max_queue_len)
              × (h.queue.i ≡ (f.a + n) % max_queue_len)
              × (h.queue.queue_is_full ≡ false))
        → IsFifo (queue_step takes h)
    go zero l m o b u = rw (take-window h.queue f.a 0 l m, queue_step) f
    go (suc n) l m o b u =
        rw (take-window h.queue f.a (suc n) l m, queue_step)
          (record {
            a = suc f.a;
            n = n;
            linked = refl;
            measured = refl;
            in_order =
                o ∙ sym (append_assoc h.taken (h.queue.event_time (f.a % max_queue_len) ∷ []) _);
            bounded = omega arith;
            open_until_full = λ e. ground (arith, u e);
          })

IsFifo-if :
    (b : Bool) (x y : Handed)
    → (b ≡ true → IsFifo x)
    → (b ≡ false → IsFifo y)
    → IsFifo (if b then x else y)
IsFifo-if true x y f g = f refl
IsFifo-if false x y f g = g refl

queue_step-IsFifo : (s : QueueStep) (h : Handed) → IsFifo h → IsFifo (queue_step s h)
unfolding queue_step finish_event
queue_step-IsFifo (adds time) h f =
    IsFifo-if h.queue.ended _ _ (λ e. f) (λ e. add-IsFifo time h f e)
queue_step-IsFifo takes h f = take-IsFifo h f
queue_step-IsFifo finishes h f = record {
  a = f.a;
  n = f.n;
  linked = f.linked;
  measured = f.measured;
  in_order = f.in_order;
  bounded = f.bounded;
  open_until_full = f.open_until_full;
}

queue_steps-IsFifo : (ss : List QueueStep) (h : Handed) → IsFifo h → IsFifo (queue_steps ss h)
unfolding queue_steps
queue_steps-IsFifo [] h f = f
queue_steps-IsFifo (s ∷ ss) h f = queue_steps-IsFifo ss (queue_step s h) (queue_step-IsFifo s h f)

abbrev pub nothing_handed : (ℕ → ℕ) → Handed
nothing_handed event_time = record { generated = []; taken = []; queue = no_events event_time }

-- However the generating thread and the executing threads interleave, from the start of a run: the
-- times of the events taken so far, followed by those that stand in the elements still linked, are
-- the times generated, in order, so no element is written while it is linked and none is lost;
-- `event_queue_length` is the number of linked elements, and at most MAX_QUEUE_LEN.
pub queue_steps-in_order :
    (ss : List QueueStep) (event_time : ℕ → ℕ)
    → ((queue_steps ss (nothing_handed event_time)).generated
        ≡ (queue_steps ss (nothing_handed event_time)).taken
          ++ map
              (queue_steps ss (nothing_handed event_time)).queue.event_time
              (queue_steps ss (nothing_handed event_time)).queue.event_queue)
      × ((queue_steps ss (nothing_handed event_time)).queue.event_queue_length
          ≡ length (queue_steps ss (nothing_handed event_time)).queue.event_queue)
      × ((queue_steps ss (nothing_handed event_time)).queue.event_queue_length ≤ max_queue_len)
queue_steps-in_order ss event_time =
    let f = queue_steps-IsFifo ss (nothing_handed event_time) (record {
      a = 0;
      n = 0;
      linked = refl;
      measured = refl;
      in_order = refl;
      bounded = omega arith;
      open_until_full = λ e. (omega arith, refl, refl);
    }) in
    let h = queue_steps ss (nothing_handed event_time) in
    (
      f.in_order ∙ ap (λ l. h.taken ++ map h.queue.event_time l) (sym f.linked),
      f.measured ∙ sym (ap length f.linked ∙ length-window f.a f.n),
      omega (arith, f.measured, f.bounded),
    )
