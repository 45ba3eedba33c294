-- ===== src/Queue/Enqueue.antt =====
-- `Queue::try_enqueue` and `Queue::close` of src/queue.rs. The reservation loop and the insertion
-- that follows it are two functions, since other calls may run between them.
pub mod Answer
pub mod Reserve
pub mod Refine
use swap_buffer_queue.Prelude.{
  ℕ, zero, suc, ◌+◌, ◌-◌, Bool, Option, none, some, ◌==◌, if◌then◌else◌,
}
use swap_buffer_queue.Prelude.Run.{Cmd, Run, done, ◌>>=◌, pure, get, modify}
use swap_buffer_queue.Error.{Result, ok, err, TryEnqueueError, insufficient_capacity, closed}
use swap_buffer_queue.Notify.{Notify}
use swap_buffer_queue.Word.{add_usize, sub_usize}
use swap_buffer_queue.Word.Enqueuing
use swap_buffer_queue.Buffer.{Buffer, InsertIntoBuffer}
use swap_buffer_queue.Queue.{Queue, on_buffer}
use swap_buffer_queue.Two.{at, put}

module _ {B N V : Type 0} where
  -- The compare-and-swap that succeeds: the result is the word before the reservation.
  unfoldable pub exchanged : (next_enq : ℕ) → Cmd (Queue B N) (Result ℕ (TryEnqueueError V))
  exchanged next_enq q = done (ok q.enqueuing_capacity) (record q { enqueuing_capacity = next_enq })

module _ {B N V : Type 0} (ins : InsertIntoBuffer B V) where
  -- The two checks of a round on the word that the round works on, before its compare-and-swap.
  unfoldable pub checked :
      V
      → ((next_enq : ℕ) → Cmd (Queue B N) (Result ℕ (TryEnqueueError V)))
      → Cmd (Queue B N) (Result ℕ (TryEnqueueError V))
  checked value exchange q =
      if Enqueuing.is_closed q.enqueuing_capacity
      then done (err (closed value)) q
      else elim (Enqueuing.try_reserve q.enqueuing_capacity (ins.size value)) [
        | none ↦ done (err (insufficient_capacity value)) q
        | some next_enq ↦ exchange next_enq q
      ]

  -- The loop. Nobody else works on the queue, so a round finds the word as it was loaded; but a weak
  -- compare-and-swap may fail all the same, as often as `spurious` says, and the next round works on
  -- the word that it returns.
  unfoldable pub reserve : (spurious : ℕ) → V → Cmd (Queue B N) (Result ℕ (TryEnqueueError V))
  unfolding checked exchanged
  reserve zero value = checked value exchanged
  reserve (suc fewer) value = checked value λ _. reserve fewer value

module _ {B S N V : Type 0} (buf : Buffer B S) (ins : InsertIntoBuffer B V)
    (notifier : Notify N) where
  -- What follows a reservation: the insertion, its acknowledgement, the notification.
  unfoldable pub commit : V → (enqueuing : ℕ) → Cmd (Queue B N) (Unit {0})
  commit value enqueuing = do
    let index = Enqueuing.buffer_index enqueuing
    _ ← on_buffer index λ b.
        ins.insert_into value (sub_usize (buf.capacity b) (Enqueuing.remaining_capacity enqueuing))
          b
    modify λ q. record q {
      buffers_length =
          put index (add_usize (at index q.buffers_length) (ins.size value)) q.buffers_length;
      notify = notifier.notify_dequeue q.notify;
    }

  unfoldable pub try_enqueue :
      (spurious : ℕ) → V → Cmd (Queue B N) (Result (Unit {0}) (TryEnqueueError V))
  unfolding reserve commit
  try_enqueue spurious value = if ins.size value == 0 then pure (ok tt) else do
    reserved ← reserve ins spurious value
    elim reserved [
      | ok enqueuing ↦ do _ ← commit value enqueuing; pure (ok tt)
      | err e ↦ pure (err e)
    ]

module _ {B N : Type 0} (notifier : Notify N) where
  unfoldable pub close : Queue B N → Queue B N
  close q = record q {
    enqueuing_capacity = Enqueuing.close q.enqueuing_capacity;
    notify = notifier.notify_enqueue (notifier.notify_dequeue q.notify);
  }
