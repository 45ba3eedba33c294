-- ===== src/History.antt =====
-- A caller of a queue, one call after another: enqueuing, dequeuing, and what can be done with the
-- slice that is out. The same calls are run on the code and on the abstract queue.
pub mod Fifo
pub mod Refine
use swap_buffer_queue.Prelude.{
  ℕ, ◌+◌, Bool, true, false, Option, none, some, List, [], ◌∷◌, length, take, drop,
}
use swap_buffer_queue.Prelude.Run.{Run, done, panic, fault, and_then}
use swap_buffer_queue.Error.{Result, ok, err, TryEnqueueError, TryDequeueError}
use swap_buffer_queue.Notify.{Notify}
use swap_buffer_queue.Buffer.{Buffer, BufferLaws, InsertIntoBuffer, Drain}
use swap_buffer_queue.Queue.{Queue, reopen}
use swap_buffer_queue.Queue.Enqueue.{try_enqueue, close}
use swap_buffer_queue.Queue.Enqueue.Answer.{reply}
use swap_buffer_queue.Queue.Dequeue.{BufferSlice, try_dequeue}
use swap_buffer_queue.Queue.Spec.{
  Phase, idle, requeued, taken, Spec, Refusal, no_room, enqueue, dequeue, requeue_phase,
}
use swap_buffer_queue.Slice.{requeue, drop_slice, drain_some}

-- The calls. `release` drops the slice, `requeue` gives it back, and `drain` takes at most so many
-- items out of it as an iterator, and drops the iterator.
pub data Op (V : Type 0) : Type 0 where
  enqueue_op : (spurious : ℕ) → V → Op V
  dequeue_op : Op V
  release_op : Op V
  requeue_op : Op V
  drain_op : (times : ℕ) → Op V
  close_op : Op V
  reopen_op : Op V

-- What the caller sees. A slice shows its items, when it comes and when it is dropped.
pub data Reply (V X : Type 0) : Type 0 where
  enqueued : V → Result (Unit {0}) (TryEnqueueError V) → Reply V X
  dequeued : Result (List X) TryDequeueError → Reply V X
  released : List X → Reply V X
  given : List X → Reply V X
  nothing : Reply V X

-- The queue, and the slice that is out.
pub record Client (B S N : Type 0) : Type 0 where
  pub queue : Queue B N
  pub held : Option (BufferSlice S)

module _ {B S N : Type 0} where
  abbrev pub client : Queue B N → Option (BufferSlice S) → Client B S N
  client q held = record { queue = q; held = held }

module _ {B S N R : Type 0} where
  -- The end of a call: the reply, and the slice that is out then.
  abbrev pub finish :
      {A : Type 0} → Run (Queue B N) A → (A → R × Option (BufferSlice S)) → Run (Client B S N) R
  finish (done a q) k = done (k a).0 (client q (k a).1)
  finish (panic q) k = panic (client q none)
  finish fault k = fault

module _ {B S N V X : Type 0} (buf : Buffer B S) (contents : S → List X)
    (ins : InsertIntoBuffer B V) (drain : Drain B X) (notifier : Notify N) where
  abbrev pub received :
      Option (BufferSlice S)
      → Result (BufferSlice S) TryDequeueError
      → Reply V X × Option (BufferSlice S)
  received held (ok slice) = (dequeued (ok (contents slice.slice)), some slice)
  received held (err e) = (dequeued (err e), held)

  -- One call on the code. With no slice out, what needs one does nothing.
  unfoldable pub act : Op V → Option (BufferSlice S) → Queue B N → Run (Client B S N) (Reply V X)
  act (enqueue_op spurious v) held q =
      finish (try_enqueue buf ins notifier spurious v q) (λ r. (enqueued v r, held))
  act dequeue_op held q = finish (try_dequeue buf notifier q) (received held)
  act release_op (some slice) q =
      finish (drop_slice buf slice q) (λ _. (released (contents slice.slice), none))
  act release_op none q = done nothing (client q none)
  act requeue_op (some slice) q = finish (requeue buf slice q) (λ _. (nothing, none))
  act requeue_op none q = done nothing (client q none)
  act (drain_op times) (some slice) q =
      finish (drain_some buf drain times 0 slice q) (λ xs. (given xs, none))
  act (drain_op times) none q = done nothing (client q none)
  act close_op held q = done nothing (client (close notifier q) held)
  act reopen_op held q = done nothing (client (reopen q) held)

  unfoldable pub run : List (Op V) → Client B S N → Run (Client B S N) (List (Reply V X))
  run [] c = done [] c
  run (op ∷ ops) c =
      and_then (act op c.held c.queue) λ r c₁. and_then (run ops c₁) λ rs c₂. done (r ∷ rs) c₂

-- The same calls on the abstract queue.
module _ {V X : Type 0} (items : V → List X) where
  unfoldable pub spec_act : Op V → Phase X → Spec X → Reply V X × Spec X
  spec_act (enqueue_op spurious v) phase s =
      let (r, s') = enqueue (items v) s in (enqueued v (reply v r), s')
  spec_act dequeue_op phase s = let (r, s') = dequeue s in (dequeued r, s')
  spec_act release_op (taken start xs) s = (released xs, record s { phase = idle })
  spec_act requeue_op (taken start xs) s = (nothing, record s { phase = requeue_phase start xs })
  spec_act (drain_op times) (taken start xs) s = (
    given (take times xs),
    record s { phase = requeue_phase (start + length (take times xs)) (drop times xs) },
  )
  spec_act close_op phase s = (nothing, record s { is_shut = true })
  spec_act reopen_op phase s = (nothing, record s { is_shut = false })
  spec_act _ phase s = (nothing, s)

  unfoldable pub spec_run : List (Op V) → Spec X → List (Reply V X) × Spec X
  spec_run [] s = ([], s)
  spec_run (op ∷ ops) s =
      let (r, s₁) = spec_act op s.phase s in let (rs, s₂) = spec_run ops s₁ in (r ∷ rs, s₂)
