-- ===== src/Synchronized/Blocking/Dequeue.antt =====
-- `try_dequeue` of src/synchronized.rs, and a poll of `dequeue_async`, against the abstract queue.
use swap_buffer_queue.Prelude.{
  ℕ, zero, suc, ◌-◌, ◌≡◌, refl, ap, subst, inl, inr, sym, ◌∙◌, Bool, true, false, Bool-cases,
  Option, none, some, arith, List,
}
use swap_buffer_queue.Prelude.Run.{done}
use swap_buffer_queue.Error.{
  Result, ok, err, TryDequeueError, empty, pending, closed, conflict, DequeueError,
}
use swap_buffer_queue.Loom.{spin_limit}
use swap_buffer_queue.Notify.{Notify}
use swap_buffer_queue.Buffer.{Buffer, BufferLaws}
use swap_buffer_queue.Queue.{Queue}
use swap_buffer_queue.Queue.Spec.{Phase, idle, requeued, taken, Spec, swap, dequeue_in, dequeue}
use swap_buffer_queue.Queue.Repr.{Repr}
use swap_buffer_queue.Queue.Dequeue.{BufferSlice}
use swap_buffer_queue.Queue.Dequeue as Queue_dequeue
use swap_buffer_queue.Queue.Dequeue.Answer.{Refined, Answers, Shows}
use swap_buffer_queue.Queue.Dequeue.Refine.{try_dequeue_refines}
use swap_buffer_queue.Synchronized.Blocking.{
  waits_for_items, spin_dequeue, try_dequeue, map_dequeue_err, poll_dequeue,
}
use swap_buffer_queue.Synchronized.Blocking.Enqueue.{notified-Repr}

-- The answers of the abstract queue on which the code waits for items.
abbrev pub waits_answer : {X : Type 0} → Result (List X) TryDequeueError → Bool
waits_answer (err empty) = true
waits_answer (err pending) = true
waits_answer _ = false

module _ {X : Type 0} where
  dequeue_in-waits :
      (phase : Phase X) (s : Spec X)
      → waits_answer (dequeue_in phase s).0 ≡ true
      → dequeue_in phase s ≡ (err empty, s)
  unfolding dequeue_in swap
  dequeue_in-waits idle s waits = ground arith
  dequeue_in-waits (requeued start xs) s waits = cc waits
  dequeue_in-waits (taken start xs) s waits = cc waits

  dequeue-waits : (s : Spec X) → waits_answer (dequeue s).0 ≡ true → dequeue s ≡ (err empty, s)
  unfolding dequeue
  dequeue-waits s waits = dequeue_in-waits s.phase s waits

module _ {B S X : Type 0} {buf : Buffer B S} (laws : BufferLaws X buf) where
  open laws use {contents}

  pub waits-Answers :
      (answer : Result (List X) TryDequeueError) (index : ℕ) (phase : Phase X)
      (r : Result (BufferSlice S) TryDequeueError)
      → Answers laws answer index phase r
      → waits_for_items r ≡ waits_answer answer
  waits-Answers (ok xs) index phase r (sl, e, shown, shows) = rw e
  waits-Answers (err empty) index phase r e = rw e
  waits-Answers (err pending) index phase r e = rw e
  waits-Answers (err closed) index phase r e = rw e
  waits-Answers (err conflict) index phase r e = rw e

  -- What a poll answers, for an answer of the abstract queue: it is pending as long as that is empty.
  abbrev pub Polled :
      Result (List X) TryDequeueError
      → (index : ℕ) → Phase X
      → Option (Result (BufferSlice S) DequeueError)
      → Type 0
  Polled (err empty) index phase r = r ≡ none
  Polled (err pending) index phase r = ⊥
  Polled (err closed) index phase r = r ≡ some (err DequeueError.closed)
  Polled (err conflict) index phase r = r ≡ some (err DequeueError.conflict)
  Polled (ok xs) index phase r =
      (sl : BufferSlice S) × (r ≡ some (ok sl))
      × (contents sl.slice ≡ xs)
      × Shows laws sl index phase

  module _ {N : Type 0} (notifier : Notify N) (register : N → N) where
    -- A round on a queue that is empty.
    empty_round :
        (q : Queue B N) (index : ℕ) (s : Spec X)
        → Repr laws N q index s
        → dequeue s ≡ (err empty, s)
        → (q' : Queue B N) × (Queue_dequeue.try_dequeue buf notifier q ≡ done (err empty) q')
          × Repr laws N q' index s
    empty_round q index s repr void =
        let (r, q', index', run, answers, keeps, repr') =
          subst (Refined laws (Queue_dequeue.try_dequeue buf notifier) q index) void
            (try_dequeue_refines laws notifier q index s repr) in
        (q', run ∙ ap (λ x. done x q') answers, subst (λ x. Repr laws N q' x s) keeps repr')

    spin_empty :
        (rounds : ℕ) (q : Queue B N) (index : ℕ) (s : Spec X)
        → Repr laws N q index s
        → dequeue s ≡ (err empty, s)
        → (q' : Queue B N) × (spin_dequeue buf notifier register rounds q ≡ done none q')
          × Repr laws N q' index s
    unfolding spin_dequeue
    spin_empty zero q index s repr void = (q, refl, repr)
    spin_empty (suc rounds) q index s repr void =
        let (q', run, repr') = empty_round q index s repr void in
        let (last, runs, repr_last) = spin_empty rounds q' index s repr' void in
        (last, rw run runs, repr_last)

    -- An answer on which the code does not wait is passed on, and never is one that
    -- `dequeue_err` does not expect.
    pub mapped_answer :
        (answer : Result (List X) TryDequeueError) (index : ℕ) (phase : Phase X)
        (r : Result (BufferSlice S) TryDequeueError)
        → waits_answer answer ≡ false
        → Answers laws answer index phase r
        → (r' : Result (BufferSlice S) DequeueError) × ((q : Queue B N)
            → map_dequeue_err buf notifier register r q ≡ done r' q)
          × Polled answer index phase (some r')
    mapped_answer (ok xs) index phase r goes (sl, e, shown, shows) =
        (ok sl, λ q. rw e, (sl, refl, shown, shows))
    mapped_answer (err closed) index phase r goes e = (err DequeueError.closed, λ q. rw e, refl)
    mapped_answer (err conflict) index phase r goes e = (err DequeueError.conflict, λ q. rw e, refl)
    mapped_answer (err empty) index phase r goes e = cc goes
    mapped_answer (err pending) index phase r goes e = cc goes

    abbrev pub PollRefined : Queue B N → Result (List X) TryDequeueError × Spec X → Type 0
    PollRefined q answer =
        (r : Option (Result (BufferSlice S) DequeueError)) × (q' : Queue B N) × (index' : ℕ)
        × (poll_dequeue buf notifier register q ≡ done r q')
        × Polled answer.0 (1 - index') answer.1.phase r
        × Repr laws N q' index' answer.1

    -- On an empty queue the caller has to wait.
    pub try_dequeue-waits :
        (q : Queue B N) (index : ℕ) (s : Spec X)
        → Repr laws N q index s
        → waits_answer (dequeue s).0 ≡ true
        → (q' : Queue B N) × (try_dequeue buf notifier register q ≡ done none q')
          × Repr laws N q' index s
    unfolding try_dequeue
    try_dequeue-waits q index s repr waits =
        let void : dequeue s ≡ (err empty, s) = dequeue-waits s waits in
        let (q', spun, repr') = spin_empty spin_limit q index s repr void in
        let (last, run, repr_last) =
          empty_round (record q' { notify = register q'.notify }) index s
            (notified-Repr laws q' index s (register q'.notify) repr') void in
        (last, rw (spun, run), repr_last)

    -- Another answer is passed on.
    pub try_dequeue-goes :
        (q : Queue B N) (index : ℕ) (s : Spec X)
        → Repr laws N q index s
        → waits_answer (dequeue s).0 ≡ false
        → (r : Result (BufferSlice S) TryDequeueError) × (q' : Queue B N) × (index' : ℕ)
          × (try_dequeue buf notifier register q ≡ done (some r) q')
          × Answers laws (dequeue s).0 (1 - index') (dequeue s).1.phase r
          × Repr laws N q' index' (dequeue s).1
    unfolding try_dequeue spin_dequeue
    try_dequeue-goes q index s repr goes =
        let (r, q', index', run, answers, keeps, repr') =
          try_dequeue_refines laws notifier q index s repr in
        let passes : waits_for_items r ≡ false =
          waits-Answers (dequeue s).0 (1 - index') (dequeue s).1.phase r answers ∙ goes in
        (r, q', index', rw (run, passes), answers, repr')

    -- With a buffer that keeps its contract, on a queue that stands for an abstract one, with one
    -- caller, a poll of `dequeue_async` runs to its end, without the panic of `dequeue_err`. It is
    -- pending if the abstract queue is empty and open; otherwise it has the error of the abstract
    -- queue, or a slice that shows the items that the abstract queue gives. What is left stands for
    -- the abstract queue after the operation.
    pub poll_dequeue_refines :
        (q : Queue B N) (index : ℕ) (s : Spec X) → Repr laws N q index s → PollRefined q (dequeue s)
    unfolding poll_dequeue
    poll_dequeue_refines q index s repr = elim (Bool-cases (waits_answer (dequeue s).0)) [
      | inl waits ↦
          let (last, run, repr_last) = try_dequeue-waits q index s repr waits in
          subst (PollRefined q) (sym (dequeue-waits s waits))
            (none, last, index, rw run, refl, repr_last)
      | inr goes ↦
          let (r, q', index', run, answers, repr') = try_dequeue-goes q index s repr goes in
          let (r', mapped, polled) =
            mapped_answer (dequeue s).0 (1 - index') (dequeue s).1.phase r goes answers in
          (some r', q', index', rw (run, mapped q'), polled, repr')
    ]
