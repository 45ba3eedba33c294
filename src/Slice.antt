-- ===== src/Slice.antt =====
-- src/buffer.rs: `BufferSlice` and the iterator `OwnedBufferIter`, which hold the lock of the dequeuing
-- side of their queue. The record of a slice is `Queue.Dequeue.BufferSlice`; the functions here are
-- its methods and those of the iterator, with the queue that they refer to as the state.
pub mod Laws
use swap_buffer_queue.Prelude.{
  ℕ, zero, suc, ◌+◌, ◌-◌, Bool, List, [], ◌∷◌, Option, none, some, leb, ◌==◌, if◌then◌else◌,
}
use swap_buffer_queue.Prelude.Run.{Cmd, panic, ◌>>=◌, pure}
use swap_buffer_queue.Buffer.{Buffer, Drain}
use swap_buffer_queue.Queue.{Queue}
use swap_buffer_queue.Queue.Dequeue
use swap_buffer_queue.Queue.Dequeue.{BufferSlice}

-- `OwnedBufferIter`; `queue` says which queue it refers to.
pub record BufferIter : Type 0 where
  pub queue : ℕ
  pub buffer_index : ℕ
  pub start : ℕ
  pub end : ℕ

-- `BufferSlice::into_iter`, of a slice of the queue `queue`.
unfoldable pub into_iter : {S : Type 0} → (queue : ℕ) → BufferSlice S → BufferIter
into_iter queue slice = record {
  queue = queue;
  buffer_index = slice.buffer_index;
  start = slice.start;
  end = slice.end;
}

-- `Range::is_empty`
unfoldable pub is_empty : BufferIter → Bool
is_empty iter = leb iter.end iter.start

-- `size_hint`, whose two bounds are this number; that of `Range` saturates at zero.
unfoldable pub size_hint : BufferIter → ℕ
size_hint iter = iter.end - iter.start

-- `with_owned`: `none` is the failed assertion that both owners refer to one queue.
unfoldable pub with_owned : BufferIter → (queue : ℕ) → Option BufferIter
with_owned iter queue = if iter.queue == queue then some (record iter { queue = queue }) else none

module _ {B S N : Type 0} (buf : Buffer B S) where
  -- `BufferSlice::requeue`
  unfoldable pub requeue : BufferSlice S → Cmd (Queue B N) (Unit {0})
  requeue slice = Dequeue.requeue buf slice.buffer_index slice.start slice.end

  -- `BufferSlice::drop`
  unfoldable pub drop_slice : BufferSlice S → Cmd (Queue B N) (Unit {0})
  drop_slice slice = Dequeue.release buf slice.buffer_index slice.start slice.end

  -- `BufferIter::into_slice`
  unfoldable pub into_slice : BufferIter → Cmd (Queue B N) (BufferSlice S)
  into_slice iter = do
    slice ← Dequeue.get_slice buf iter.buffer_index iter.start iter.end
    pure (record {
      buffer_index = iter.buffer_index;
      start = iter.start;
      end = iter.end;
      slice = slice;
    })

  -- `OwnedBufferIter::drop`
  unfoldable pub drop_iter : BufferIter → Cmd (Queue B N) (Unit {0})
  drop_iter iter = Dequeue.requeue buf iter.buffer_index iter.start iter.end

module _ {B N X : Type 0} (drain : Drain B X) where
  -- `OwnedBufferIter::next`, with the iterator that it leaves.
  unfoldable pub next : BufferIter → Cmd (Queue B N) (Option X × BufferIter)
  unfolding is_empty
  next iter = if is_empty iter then pure (none, iter) else do
    value ← Dequeue.remove drain iter.buffer_index iter.start
    pure (some value, record iter { start = iter.start + 1 })

  -- A caller that takes at most this many items.
  unfoldable pub next_times : ℕ → BufferIter → Cmd (Queue B N) (List X × BufferIter)
  unfolding next
  next_times zero iter = pure ([], iter)
  next_times (suc times) iter = do
    item ← next iter
    elim item.0 [
      | none ↦ pure ([], item.1)
      | some x ↦ do rest ← next_times times item.1; pure (x ∷ rest.0, rest.1)
    ]

-- The loop of a caller: a slice becomes an iterator, at most this many items are taken, and the
-- iterator is dropped.
module _ {B S N X : Type 0} (buf : Buffer B S) (drain : Drain B X) where
  unfoldable pub drain_some : ℕ → (queue : ℕ) → BufferSlice S → Cmd (Queue B N) (List X)
  unfolding into_iter drop_iter
  drain_some times queue slice = do
    given ← next_times drain times (into_iter queue slice)
    _ ← drop_iter buf given.1
    pure given.0
