-- ===== src/Queue/Dequeue.antt =====
-- `Queue::try_dequeue` and what it calls in src/queue.rs, the end of a dequeuing, and `Queue::drop`.
pub mod Answer
pub mod Spin
pub mod Pending
pub mod Swap
pub mod Refine
pub mod Release
pub mod Drop
use swap_buffer_queue.Prelude.{
  ℕ, zero, suc, ◌+◌, ◌-◌, Bool, false, true, not, ◌&&◌, Option, none, some, List, [], ◌∷◌, ltb, leb,
  ◌==◌, if◌then◌else◌,
}
use swap_buffer_queue.Prelude.Run.{
  Cmd, Run, done, panic, fault, ◌>>=◌, ◌>>◌, pure, get, modify, unwrap,
}
use swap_buffer_queue.Error.{Result, ok, err, TryDequeueError, empty, pending, closed, conflict}
use swap_buffer_queue.Notify.{Notify}
use swap_buffer_queue.Loom.{spin_limit}
use swap_buffer_queue.Word.{add_usize, sub_usize, dequeuing_locked}
use swap_buffer_queue.Word.Enqueuing
use swap_buffer_queue.Word.Dequeuing
use swap_buffer_queue.Buffer.{Buffer, Drain}
use swap_buffer_queue.Queue.{Queue, on_buffer}
use swap_buffer_queue.Two.{at, put}

-- src/buffer.rs, `BufferSlice`, without its reference to the queue.
pub record BufferSlice (S : Type 0) : Type 0 where
  pub buffer_index : ℕ
  pub start : ℕ
  pub end : ℕ
  pub slice : S

module _ {B N : Type 0} where
  unfoldable pub lock_dequeuing : Cmd (Queue B N) (Result ℕ TryDequeueError)
  lock_dequeuing q =
      done (Dequeuing.try_from_atomic q.dequeuing_length)
        (record q { dequeuing_length = dequeuing_locked })

  -- `if inserted_length > 0 { self.buffers_length[..].fetch_add(..) }`
  unfoldable pub add_inserted : (index inserted_length : ℕ) → Queue B N → Queue B N
  add_inserted index inserted_length q =
      if ltb 0 inserted_length
      then record q {
        buffers_length =
            put index (add_usize (at index q.buffers_length) inserted_length) q.buffers_length;
      }
      else q

-- `resize.map_or((false, 0), |f| f(next_buffer))`
abbrev pub run_resize : {B : Type 0} → Option (Cmd B (Bool × ℕ)) → Cmd B (Bool × ℕ)
run_resize none = pure (false, 0)
run_resize (some f) = f

module _ {B S N : Type 0} (buf : Buffer B S) where
  -- `for _ in 0..SPIN_LIMIT`, with the number of rounds left.
  unfoldable pub try_dequeue_spin :
      (rounds index length : ℕ) → Cmd (Queue B N) (Option (BufferSlice S))
  try_dequeue_spin zero index length q =
      done none (record q { dequeuing_length = Dequeuing.new index length })
  try_dequeue_spin (suc rounds) index length q =
      let again = try_dequeue_spin rounds index length q in
      let buffer_len = at index q.buffers_length in
      let start = buffer_len - length in
      let take_slice : Run (Queue B N) (Option (BufferSlice S)) =
        (do
          slice ← on_buffer index (buf.slice start buffer_len)
          pure (
              some
                (record { buffer_index = index; start = start; end = buffer_len; slice = slice })))
          q in
      if leb length buffer_len then take_slice else again

  -- The answer of `try_dequeue_spin(..).ok_or(TryDequeueError::Pending)`.
  unfoldable pub spin_or_pending :
      (index length : ℕ) → Cmd (Queue B N) (Result (BufferSlice S) TryDequeueError)
  spin_or_pending index length = do
    slice ← try_dequeue_spin spin_limit index length
    elim slice [ none ↦ pure (err pending) | some s ↦ pure (ok s) ]

  -- The end of `try_dequeue_internal`, once the buffers are swapped: `index` is the buffer to
  -- dequeue, `length` what has been reserved in it, and `retry` the call that the function makes of
  -- itself.
  unfoldable pub after_swap :
      (retry : ℕ → Cmd (Queue B N) (Result (BufferSlice S) TryDequeueError))
      → (index length inserted_length : ℕ)
      → Cmd (Queue B N) (Result (BufferSlice S) TryDequeueError)
  after_swap retry index length inserted_length =
      if not (length == 0)
      then spin_or_pending index length
      else if ltb 0 inserted_length
      then retry (Dequeuing.new index 0)
      else do modify λ q. record q { dequeuing_length = Dequeuing.new index 0 }; pure (err empty)

  -- The middle of it: the swap. The loop of the weak compare-and-swap ends when it succeeds, on the
  -- word that it then finds; `capacity` is that of the buffer which was enqueued into.
  unfoldable pub swap_buffers :
      (retry : ℕ → Cmd (Queue B N) (Result (BufferSlice S) TryDequeueError))
      → (notify_enqueue : N → N) → (next_buffer_index next_capa inserted_length capacity : ℕ)
      → Cmd (Queue B N) (Result (BufferSlice S) TryDequeueError)
  swap_buffers retry notify_enqueue next_buffer_index next_capa inserted_length capacity = do
    next_enqueuing ← unwrap (Enqueuing.new next_buffer_index (sub_usize next_capa inserted_length))
    q ← get
    let enqueuing = q.enqueuing_capacity
    modify λ q'. record q' {
      enqueuing_capacity = Enqueuing.with_closed next_enqueuing enqueuing;
      capacity = next_capa;
      notify = notify_enqueue q'.notify;
    }
    after_swap retry (Enqueuing.buffer_index enqueuing)
        (sub_usize capacity (Enqueuing.remaining_capacity enqueuing)) inserted_length

  -- `Queue::try_dequeue_internal`; `resize` is the closure that the caller passes.
  unfoldable pub try_dequeue_step :
      (retry : ℕ → Cmd (Queue B N) (Result (BufferSlice S) TryDequeueError))
      → (dequeuing : ℕ) → (notify_enqueue : N → N) → (resize : Option (Cmd B (Bool × ℕ)))
      → Cmd (Queue B N) (Result (BufferSlice S) TryDequeueError)
  try_dequeue_step retry dequeuing notify_enqueue resize =
      let next_buffer_index = Dequeuing.buffer_index dequeuing in
      if not (Dequeuing.buffer_len dequeuing == 0)
      then spin_or_pending next_buffer_index (Dequeuing.buffer_len dequeuing)
      else do
        resizing ← on_buffer next_buffer_index (run_resize resize)
        modify (add_inserted next_buffer_index resizing.1)
        q ← get
        let next_capa = buf.capacity (at next_buffer_index q.buffers)
        let enqueuing = q.enqueuing_capacity
        let capacity = buf.capacity (at (Enqueuing.buffer_index enqueuing) q.buffers)
        if (Enqueuing.remaining_capacity enqueuing == capacity)
              && not resizing.0
              && (resizing.1 == 0)
            then (do
              modify λ q'. record q' { dequeuing_length = dequeuing }
              pure (err (if Enqueuing.is_closed enqueuing then closed else empty)))
            else swap_buffers retry notify_enqueue next_buffer_index next_capa resizing.1 capacity

  -- The retry passes no closure, so nothing is inserted and it makes no further call: `fault` marks
  -- that call.
  unfoldable pub try_dequeue_internal :
      (dequeuing : ℕ)
      → (notify_enqueue : N → N) → (resize : Option (Cmd B (Bool × ℕ)))
      → Cmd (Queue B N) (Result (BufferSlice S) TryDequeueError)
  try_dequeue_internal dequeuing notify_enqueue resize =
      try_dequeue_step (λ again. try_dequeue_step (λ _ _. fault) again notify_enqueue none)
        dequeuing notify_enqueue resize

  -- `self.lock_dequeuing()?`, then `try_dequeue_internal`.
  unfoldable pub locked_dequeue :
      (notify_enqueue : N → N)
      → (resize : Option (Cmd B (Bool × ℕ)))
      → Cmd (Queue B N) (Result (BufferSlice S) TryDequeueError)
  locked_dequeue notify_enqueue resize = do
    locked ← lock_dequeuing
    elim locked [
      | err e ↦ pure (err e)
      | ok dequeuing ↦ try_dequeue_internal dequeuing notify_enqueue resize
    ]

  unfoldable pub try_dequeue : Notify N → Cmd (Queue B N) (Result (BufferSlice S) TryDequeueError)
  try_dequeue notifier = locked_dequeue notifier.notify_enqueue none

  -- `Queue::release`
  unfoldable pub release : (index start end : ℕ) → Cmd (Queue B N) (Unit {0})
  release index start end = do
    _ ← on_buffer index (buf.clear start end)
    modify λ q. record q {
      buffers_length = put index 0 q.buffers_length;
      dequeuing_length = Dequeuing.new index 0;
    }

  -- `Queue::get_slice`
  unfoldable pub get_slice : (index start end : ℕ) → Cmd (Queue B N) S
  get_slice index start end = on_buffer index (buf.slice start end)

  -- `Queue::requeue`
  unfoldable pub requeue : (index start end : ℕ) → Cmd (Queue B N) (Unit {0})
  requeue index start end =
      let length = sub_usize end start in
      if ltb 0 length
      then modify (λ q. record q { dequeuing_length = Dequeuing.new index length })
      else release index start end

  -- `Queue::drop`: a slice that comes out is dropped at once, which releases it.
  unfoldable pub drop_queue : Cmd (Queue B N) (Unit {0})
  drop_queue = do
    dequeued ← locked_dequeue (λ n. n) none
    elim dequeued [ err e ↦ pure tt | ok s ↦ release s.buffer_index s.start s.end ]

module _ {B N X : Type 0} (drain : Drain B X) where
  -- `Queue::remove`
  unfoldable pub remove : (buffer_index index : ℕ) → Cmd (Queue B N) X
  remove buffer_index index = on_buffer buffer_index (drain.remove index)
