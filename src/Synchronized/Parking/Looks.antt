-- ===== src/Synchronized/Parking/Looks.antt =====
-- src/synchronized.rs: what the last look of `try_dequeue` and of `try_enqueue` finds, before the
-- caller waits.
use swap_buffer_queue.Prelude.{
  ◌≡◌, refl, ap, ◌∙◌, Bool, true, false, not, ℕ, ◌-◌, ◌^◌, ◌<◌, length, Option, none, some,
}
use swap_buffer_queue.Prelude.Run.{Run, done}
use swap_buffer_queue.Error.{Result, TryDequeueError, TryEnqueueError}
use swap_buffer_queue.Notify.{Notify}
use swap_buffer_queue.Buffer.{Buffer, BufferLaws, InsertIntoBuffer, InsertLaws}
use swap_buffer_queue.Queue.{Queue}
use swap_buffer_queue.Queue.Spec.{Spec, enqueue, dequeue}
use swap_buffer_queue.Queue.Repr.{Repr}
use swap_buffer_queue.Queue.Enqueue.Answer.{reply}
use swap_buffer_queue.Queue.Dequeue as Queue_dequeue
use swap_buffer_queue.Queue.Dequeue.Refine.{try_dequeue_refines}
use swap_buffer_queue.Synchronized.Blocking.Dequeue.{waits_answer, waits-Answers}
use swap_buffer_queue.Synchronized.Blocking.Enqueue.{round_refines, must_wait}
use swap_buffer_queue.Synchronized.Blocking.{waits_for_items, enqueue_round}

-- Whether it is something else than that the queue is empty or pending.
abbrev other_than_empty : {Q S : Type 0} → Run Q (Result S TryDequeueError) → Bool
other_than_empty (done res q) = not (waits_for_items res)
other_than_empty _ = false

abbrev pub finds_items : {B S N : Type 0} → Buffer B S → Notify N → Queue B N → Bool
finds_items buf notifier q = other_than_empty (Queue_dequeue.try_dequeue buf notifier q)

-- Whether it is something else than that the value does not fit for now.
abbrev other_than_full :
    {Q V : Type 0} → Run Q (Result (Unit {0}) (TryEnqueueError V) × Option V) → Bool
other_than_full (done (res, none) q) = true
other_than_full _ = false

abbrev pub finds_room :
    {B S N V : Type 0}
    → Buffer B S
    → InsertIntoBuffer B V
    → Notify N
    → (register : N → N) → (spurious : ℕ) → V
    → Queue B N
    → Bool
finds_room buf ins notifier register spurious value q =
    other_than_full (enqueue_round buf ins notifier register spurious value q)

abbrev pub is_none : {A : Type 0} → Option A → Bool
is_none none = true
is_none (some a) = false

full-none :
    {Q V : Type 0} (r : Result (Unit {0}) (TryEnqueueError V)) (q : Q) (o : Option V)
    → other_than_full (done (r, o) q) ≡ is_none o
full-none r q none = refl
full-none r q (some v) = refl

-- A look at a queue that stands for an abstract one finds what the abstract queue has.
module _ {B S N X : Type 0} {buf : Buffer B S} (laws : BufferLaws X buf) (notifier : Notify N) where
  pub finds_items-Repr :
      (q : Queue B N) (index : ℕ) (s : Spec X)
      → Repr laws N q index s
      → finds_items buf notifier q ≡ not (waits_answer (dequeue s).0)
  finds_items-Repr q index s repr =
      let (r, q', index', run, answers, keeps, repr') =
        try_dequeue_refines laws notifier q index s repr in
      ap other_than_empty run
      ∙ ap not (waits-Answers laws (dequeue s).0 (1 - index') (dequeue s).1.phase r answers)

  pub finds_room-Repr :
      {V : Type 0} {ins : InsertIntoBuffer B V} (into : InsertLaws laws ins) (register : N → N)
      (spurious : ℕ) (v : V) (small : length (into.items v) < 2 ^ 63) (q : Queue B N) (index : ℕ)
      (s : Spec X)
      → Repr laws N q index s
      → finds_room buf ins notifier register spurious v q
        ≡ is_none (must_wait laws into notifier register spurious v small s)
  finds_room-Repr into register spurious v small q index s repr =
      let (q', run, repr') =
        round_refines laws into notifier register spurious v small q index s repr in
      ap other_than_full run
      ∙ full-none (reply v (enqueue (into.items v) s).0) q'
          (must_wait laws into notifier register spurious v small s)
