-- ===== src/Queue/Resizing/Refine.antt =====
-- `try_dequeue_and_resize` of src/queue.rs against the abstract queue.
use swap_buffer_queue.Prelude.{
  ℕ, ◌-◌, ◌≤◌, ◌<◌, ◌≡◌, refl, subst, Option, none, some, List, length, arith, false,
}
use swap_buffer_queue.Prelude.Run.{done}
use swap_buffer_queue.Error.{Result, TryDequeueError}
use swap_buffer_queue.Notify.{Notify}
use swap_buffer_queue.Buffer.{Buffer, BufferLaws, Resize, ResizeLaws, InsertIntoBuffer, InsertLaws}
use swap_buffer_queue.Two.{at}
use swap_buffer_queue.Queue.{Queue}
use swap_buffer_queue.Queue.Spec.{Phase, idle, requeued, taken, Spec, dequeue_resized}
use swap_buffer_queue.Queue.Resizing.Swap.{closure_refines}
use swap_buffer_queue.Queue.Repr.{max_capacity, Repr, InPhase}
use swap_buffer_queue.Queue.Dequeue.{BufferSlice}
use swap_buffer_queue.Queue.Dequeue.Answer.{Answers}
use swap_buffer_queue.Queue.Dequeue.Refine.{requeued_refines, taken_refines}
use swap_buffer_queue.Queue.Resizing.{resize_and_insert, try_dequeue_and_resize}
use swap_buffer_queue.Queue.Resizing.Closure.{
  room_asked, is_resized, inserted_items, resize_and_insert-fits,
}

is_resized-same :
    (capacity : Option ℕ) (current : ℕ)
    → is_resized capacity current ≡ false
    → room_asked capacity current ≡ current
is_resized-same none current same = refl
is_resized-same (some capa) current same = ground (arith, same)

module _ {B S X V : Type 0} {buf : Buffer B S} (laws : BufferLaws X buf) {resizable : Resize B}
    (resizes : ResizeLaws laws resizable) {ins : InsertIntoBuffer B V} (into : InsertLaws laws ins)
    {N : Type 0} (notifier : Notify N) (q : Queue B N) (index : ℕ) (s : Spec X)
    (repr : Repr laws N q index s) (capacity : Option ℕ) (insert : Option (List V))
    (small : room_asked capacity s.spare < max_capacity)
    (fits : length (inserted_items resizes into insert) ≤ room_asked capacity s.spare) where
  abbrev Gives : Result (List X) TryDequeueError × Spec X → Type 0
  Gives answer =
      (r : Result (BufferSlice S) TryDequeueError) × (q' : Queue B N) × (index' : ℕ)
      × (try_dequeue_and_resize buf resizable ins notifier capacity insert q ≡ done r q')
      × Answers laws answer.0 (1 - index') answer.1.phase r
      × Repr laws N q' index' answer.1

  abbrev answer_in : Phase X → Result (List X) TryDequeueError × Spec X
  answer_in phase =
      dequeue_resized phase (is_resized capacity s.spare) (room_asked capacity s.spare)
        (inserted_items resizes into insert) s

  phase_refines : (phase : Phase X) → s.phase ≡ phase → Gives (answer_in phase)
  unfolding try_dequeue_and_resize
  phase_refines idle is_phase =
      let in_phase : InPhase laws N q (1 - index) idle =
        subst (InPhase laws N q (1 - index)) is_phase repr.phase in
      let (b, ran, room, held, clean) =
        resize_and_insert-fits resizes into capacity insert (at (1 - index) q.buffers) in_phase.2
          (rw repr.spare_slots small) (rw repr.spare_slots fits) in
      closure_refines laws notifier.notify_enqueue q index s repr in_phase
        (resize_and_insert buf resizable ins capacity insert) (is_resized capacity s.spare)
        (room_asked capacity s.spare) (inserted_items resizes into insert) b
        (rw repr.spare_slots at ran) (rw repr.spare_slots at room) small fits held clean
        (is_resized-same capacity s.spare)
  phase_refines (requeued start xs) is_phase =
      let (r, q', index', ran, answers, kept, repr') =
        requeued_refines laws notifier.notify_enqueue q index s repr
          (some (resize_and_insert buf resizable ins capacity insert)) start xs
          (subst (InPhase laws N q (1 - index)) is_phase repr.phase) in
      (r, q', index', ran, answers, repr')
  phase_refines (taken start xs) is_phase =
      let (r, q', index', ran, answers, kept, repr') =
        taken_refines laws notifier.notify_enqueue q index s repr
          (some (resize_and_insert buf resizable ins capacity insert)) start xs
          (subst (InPhase laws N q (1 - index)) is_phase repr.phase) in
      (r, q', index', ran, answers, repr')

  -- With buffers and values that keep their contracts, on a queue that stands for an abstract one,
  -- with or without a new capacity for the other buffer and values to insert, that capacity below the
  -- limit and not below the sum of the sizes of the values, `try_dequeue_and_resize` runs to its end.
  -- While nothing is dequeued: if items were enqueued, the answer is a slice that shows them in
  -- order, and the queue then has the capacity of the other buffer and holds the inserted items in
  -- order. If none were, the inserted ones come out at once, and the queue has the capacity that it
  -- had. If there are none either, the answer is `Empty` and the queue has a new capacity, if one is
  -- asked for, also when it is closed; with no new capacity the answer is the one of `try_dequeue`.
  -- Items that wait to be dequeued again come out, and while a slice is out the answer is `Conflict`,
  -- with nothing resized or inserted.
  pub resize_refines : Gives (answer_in s.phase)
  resize_refines = phase_refines s.phase refl
