-- ===== src/Synchronized/Blocking/Awaited.antt =====
-- `dequeue` of src/synchronized.rs, with what the abstract queue comes to while the caller is parked.
use swap_buffer_queue.Prelude.{ℕ, ◌-◌, ◌≡◌, subst, true, false, Option, some, List, [], ◌∷◌, map}
use swap_buffer_queue.Prelude.Run.{done}
use swap_buffer_queue.Error.{Result, TryDequeueError, DequeueError}
use swap_buffer_queue.Notify.{Notify}
use swap_buffer_queue.Buffer.{Buffer, BufferLaws}
use swap_buffer_queue.Queue.{Queue}
use swap_buffer_queue.Queue.Spec as Spec_of
use swap_buffer_queue.Queue.Spec.{Spec}
use swap_buffer_queue.Queue.Repr.{Repr}
use swap_buffer_queue.Queue.Dequeue.{BufferSlice}
use swap_buffer_queue.Queue.Dequeue.Answer.{Answers}
use swap_buffer_queue.Synchronized.Blocking.{dequeue_sync, dequeue}
use swap_buffer_queue.Synchronized.Blocking.Dequeue.{
  waits_answer, try_dequeue-waits, try_dequeue-goes, mapped_answer, Polled,
}

module _ {B S N X : Type 0} {buf : Buffer B S} (laws : BufferLaws X buf) (notifier : Notify N)
    (register : N → N) where
  -- The waits of a caller: at each the abstract queue is empty, and what the others do takes a queue
  -- that stands for one abstract state to one that stands for the next. In the last of them, `t`, a
  -- dequeuing does not have to wait.
  abbrev pub Awaits : Spec X → List (Queue B N → Queue B N) → Spec X → Type 0
  Awaits s [] t = (s ≡ t) × (waits_answer (Spec_of.dequeue s).0 ≡ false)
  Awaits s (others ∷ meanwhile) t =
      (waits_answer (Spec_of.dequeue s).0 ≡ true)
      × ((s' : Spec X) × ((q : Queue B N) (index : ℕ)
            → Repr laws N q index s
            → (index' : ℕ) × Repr laws N (others q) index' s')
          × Awaits s' meanwhile t)

  dequeue_sync_ends :
      (meanwhile : List (Queue B N → Queue B N)) (q : Queue B N) (index : ℕ) (s t : Spec X)
      → Repr laws N q index s
      → Awaits s meanwhile t
      → (r : Result (BufferSlice S) TryDequeueError) × (q' : Queue B N) × (index' : ℕ)
        × (dequeue_sync buf notifier register (map (λ others. (false, others)) meanwhile) q
            ≡ done (some r) q')
        × Answers laws (Spec_of.dequeue t).0 (1 - index') (Spec_of.dequeue t).1.phase r
        × (waits_answer (Spec_of.dequeue t).0 ≡ false)
        × Repr laws N q' index' (Spec_of.dequeue t).1
  unfolding dequeue_sync
  dequeue_sync_ends [] q index s t repr (same, goes) =
      let goes' : waits_answer (Spec_of.dequeue t).0 ≡ false =
        subst (λ x. waits_answer (Spec_of.dequeue x).0 ≡ false) same goes in
      let repr_t : Repr laws N q index t = subst (Repr laws N q index) same repr in
      let (r, q', index', run, answers, repr') =
        try_dequeue-goes laws notifier register q index t repr_t goes' in
      (r, q', index', run, answers, goes', repr')
  dequeue_sync_ends (others ∷ meanwhile) q index s t repr (waits, (s', moves, rest)) =
      let (q', run, repr') = try_dequeue-waits laws notifier register q index s repr waits in
      let (index', repr_next) = moves q' index repr' in
      let (r, last, index_last, runs, answers, goes, repr_last) =
        dequeue_sync_ends meanwhile (others q') index' s' t repr_next rest in
      (r, last, index_last, rw run runs, answers, goes, repr_last)

  -- With a buffer that keeps its contract, one caller, and waits at each of which the abstract queue is
  -- empty and after the last of which it is not or is closed, `dequeue` ends, without the panic of
  -- `dequeue_err`: it has the error of the abstract queue in its last state, or a slice that shows the
  -- items that this queue gives, and leaves a queue that stands for that state after the operation.
  pub dequeue_ends :
      (meanwhile : List (Queue B N → Queue B N)) (q : Queue B N) (index : ℕ) (s t : Spec X)
      → Repr laws N q index s
      → Awaits s meanwhile t
      → (r : Option (Result (BufferSlice S) DequeueError)) × (q' : Queue B N) × (index' : ℕ)
        × (dequeue buf notifier register meanwhile q ≡ done r q')
        × Polled laws (Spec_of.dequeue t).0 (1 - index') (Spec_of.dequeue t).1.phase r
        × Repr laws N q' index' (Spec_of.dequeue t).1
  unfolding dequeue
  dequeue_ends meanwhile q index s t repr awaits =
      let (r, q', index', run, answers, goes, repr') =
        dequeue_sync_ends meanwhile q index s t repr awaits in
      let (r', mapped, polled) =
        mapped_answer laws notifier register (Spec_of.dequeue t).0 (1 - index')
          (Spec_of.dequeue t).1.phase r goes answers in
      (some r', q', index', rw (run, mapped q'), polled, repr')
