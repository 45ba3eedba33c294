-- ===== src/Synchronized/Iter.antt =====
-- src/synchronized.rs: `SynchronizedQueue::iter`, which flattens the slices that `dequeue` gives until it
-- gives an error. The adaptors of the standard library are written out.
pub mod Laws
use swap_buffer_queue.Prelude.{
  ℕ, Bool, true, false, if◌then◌else◌, Option, none, some, List, [], ◌∷◌,
}
use swap_buffer_queue.Prelude.Run.{Cmd, ◌>>=◌, pure}
use swap_buffer_queue.Error.{Result, ok, err, DequeueError}
use swap_buffer_queue.Notify.{Notify}
use swap_buffer_queue.Buffer.{Buffer, Drain}
use swap_buffer_queue.Queue.{Queue}
use swap_buffer_queue.Queue.Dequeue.{BufferSlice}
use swap_buffer_queue.Slice.{BufferIter, into_iter, next, drop_iter}
use swap_buffer_queue.Synchronized.Blocking.{dequeue}

-- The iterator: the one of the slice that is out, if one is, and whether an error has ended it.
-- `flatten` fuses what it flattens, so nothing is dequeued after that.
pub record Flatten : Type 0 where
  pub front : Option BufferIter
  pub ended : Bool

module _ {B S N X : Type 0} (buf : Buffer B S) (drain : Drain B X) (notifier : Notify N)
    (register : N → N) (queue : ℕ) where
  -- The front is dropped when it has no item.
  unfoldable pub take_front : Option BufferIter → Cmd (Queue B N) (Option X × Option BufferIter)
  take_front none = pure (none, none)
  take_front (some iter) = do
    item ← next drain iter
    elim item.0 [
      | some x ↦ pure (some x, some item.1)
      | none ↦ do _ ← drop_iter buf item.1; pure (none, none)
    ]

  -- What is done with what `dequeue` gives: the iterator ends at an error.
  abbrev pub with_slice :
      (Flatten → Cmd (Queue B N) (Option (Option X) × Flatten))
      → Option (Result (BufferSlice S) DequeueError)
      → Cmd (Queue B N) (Option (Option X) × Flatten)
  with_slice go_on none = pure (none, record { front = none; ended = false })
  with_slice go_on (some (err e)) = pure (some none, record { front = none; ended = true })
  with_slice go_on (some (ok slice)) =
      go_on (record { front = some (into_iter queue slice); ended = false })

  -- `next` of the iterator, with what other threads do to the queue at the waits of each `dequeue`;
  -- `none` if the caller still waits when the list of them ends.
  unfoldable pub iter_next :
      (waits : List (List (Queue B N → Queue B N)))
      → Flatten
      → Cmd (Queue B N) (Option (Option X) × Flatten)
  unfolding take_front
  iter_next [] iter = do
    got ← take_front iter.front
    let left : Flatten = record { front = got.1; ended = iter.ended }
    elim got.0 [
      | some x ↦ pure (some (some x), left)
      | none ↦ pure (if iter.ended then some none else none, left)
    ]
  iter_next (meanwhile ∷ waits) iter = do
    got ← take_front iter.front
    let left : Flatten = record { front = got.1; ended = iter.ended }
    elim got.0 [
      | some x ↦ pure (some (some x), left)
      | none ↦
          if iter.ended
          then pure (some none, left)
          else (do res ← dequeue buf notifier register meanwhile; with_slice (iter_next waits) res)
    ]
