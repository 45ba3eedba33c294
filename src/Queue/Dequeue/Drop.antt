-- ===== src/Queue/Dequeue/Drop.antt =====
-- `Queue::drop` of src/queue.rs against the abstract queue.
use swap_buffer_queue.Prelude.{ℕ, ◌-◌, ◌≡◌, refl, Option, none, List, length}
use swap_buffer_queue.Prelude.Run.{done}
use swap_buffer_queue.Prelude.Slots.{Free}
use swap_buffer_queue.Error.{Result, ok, err, TryDequeueError}
use swap_buffer_queue.Buffer.{Buffer, BufferLaws}
use swap_buffer_queue.Two.{at}
use swap_buffer_queue.Queue.{Queue}
use swap_buffer_queue.Queue.Spec.{Phase, idle, requeued, taken, Spec, dequeue}
use swap_buffer_queue.Queue.Repr.{Repr}
use swap_buffer_queue.Queue.Dequeue.{drop_queue, locked_dequeue}
use swap_buffer_queue.Queue.Dequeue.Answer.{Refined}
use swap_buffer_queue.Queue.Dequeue.Refine.{locked_dequeue_refines}
use swap_buffer_queue.Queue.Dequeue.Release.{release_refines}

-- What comes out of one dequeuing is gone; an error leaves everything.
abbrev pub dropped : {X : Type 0} → Result (List X) TryDequeueError × Spec X → Spec X
dropped (ok xs, s) = record s { phase = idle }
dropped (err e, s) = s

-- The slots of the buffer that something came out of are all empty.
abbrev pub Emptied : {X : Type 0} → Result (List X) TryDequeueError → List (Option X) → Type 0
Emptied (ok xs) slots = Free slots 0 (length slots)
Emptied (err e) slots = Unit

module _ {B S X : Type 0} {buf : Buffer B S} (laws : BufferLaws X buf) {N : Type 0} where
  drop-Refined :
      (q : Queue B N) (index : ℕ) (answer : Result (List X) TryDequeueError) (phase : Phase X)
      (s : Spec X)
      → Refined laws (locked_dequeue buf (λ n. n) none) q index (answer, record s { phase = phase })
      → (q' : Queue B N) × (index' : ℕ) × (drop_queue buf q ≡ done tt q')
        × Emptied answer (laws.slots (at (1 - index') q'.buffers))
        × Repr laws N q' index' (dropped (answer, record s { phase = phase }))
  unfolding drop_queue
  drop-Refined q index (err e) phase s (r, q', index', ran, is_err, kept, repr) =
      (q', index', rw (ran, is_err), tt, repr)
  drop-Refined q index (ok xs) idle s
        (r, q', index', ran, (slice, is_ok, shown, shows), kept, repr) =
      absurd shows
  drop-Refined q index (ok xs) (requeued start ys) s
        (r, q', index', ran, (slice, is_ok, shown, shows), kept, repr) =
      absurd shows
  drop-Refined q index (ok xs) (taken start ys) s
        (r, q', index', ran, (slice, is_ok, shown, (at_index, from, until, items)), kept, repr) =
      let (q₂, released, _, after) =
        release_refines laws q' index' (record s { phase = taken start ys }) repr start ys
          repr.phase.1 in
      (q₂, index', rw (ran, is_ok, at_index, from, until, released), after.phase.2, after)

  -- On a queue that stands for an abstract one, dropping it runs to its end, and releases just what
  -- one dequeuing takes out: the items that are enqueued if nothing waits to be dequeued, and else
  -- those that wait, and then what is enqueued stands in its buffer as before. The slots of what is
  -- released are cleared, so that every slot of that buffer is empty. If nothing comes out, nothing
  -- changes.
  pub drop_refines :
      (q : Queue B N) (index : ℕ) (s : Spec X)
      → Repr laws N q index s
      → (q' : Queue B N) × (index' : ℕ) × (drop_queue buf q ≡ done tt q')
        × Emptied (dequeue s).0 (laws.slots (at (1 - index') q'.buffers))
        × Repr laws N q' index' (dropped (dequeue s))
  unfolding dequeue
  drop_refines q index s repr =
      drop-Refined q index (dequeue s).0 (dequeue s).1.phase (dequeue s).1
        (locked_dequeue_refines laws (λ n. n) q index s s.phase refl repr)
