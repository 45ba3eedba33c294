-- ===== src/Queue/Resizing.antt =====
-- `Queue::try_dequeue_and_resize` of src/queue.rs, with the closure that it passes.
pub mod Closure
pub mod Swap
pub mod Refine
use swap_buffer_queue.Prelude.{
  ℕ, ◌+◌, Bool, true, false, not, Option, none, some, List, [], ◌∷◌, ltb, ◌==◌, if◌then◌else◌,
}
use swap_buffer_queue.Prelude.Run.{Cmd, Run, done, panic, ◌>>=◌, pure, get, modify}
use swap_buffer_queue.Error.{Result, TryDequeueError}
use swap_buffer_queue.Notify.{Notify}
use swap_buffer_queue.Word.{add_usize}
use swap_buffer_queue.Word.Enqueuing.{check_overflow}
use swap_buffer_queue.Buffer.{Buffer, Resize, InsertIntoBuffer}
use swap_buffer_queue.Queue.{Queue}
use swap_buffer_queue.Queue.Dequeue.{BufferSlice, locked_dequeue}

-- `capacity.into().filter(|capa| *capa != buffer_mut.capacity())`
unfoldable pub resized_capacity : Option ℕ → (current : ℕ) → Option ℕ
resized_capacity none current = none
resized_capacity (some capa) current = if not (capa == current) then some capa else none

module _ {B S V : Type 0} (buf : Buffer B S) (resizable : Resize B)
    (ins : InsertIntoBuffer B V) where
  -- `if let Some(capa) = resized_capa { .. }`, where the assertion may fail.
  unfoldable pub resize_to : Option ℕ → Cmd B (Unit {0})
  resize_to none b = done tt b
  resize_to (some capa) b =
      if check_overflow capa then done tt (resizable.resize capa b) else panic b

  -- `for value in insert()`: an empty value is passed over, and one that is larger than the buffer ends
  -- the loop.
  unfoldable pub insert_values : List V → (length : ℕ) → Cmd B ℕ
  insert_values [] length b = done length b
  insert_values (value ∷ values) length b =
      let skip : Run B ℕ = insert_values values length b in
      let inserted : Run B ℕ =
        (do
          _ ← ins.insert_into value length
          insert_values values (add_usize length (ins.size value)))
          b in
      if ins.size value == 0
      then skip
      else if ltb (buf.capacity b) (ins.size value)
      then done length b
      else inserted

  -- The closure.
  unfoldable pub resize_and_insert : Option ℕ → Option (List V) → Cmd B (Bool × ℕ)
  resize_and_insert capacity insert = do
    b ← get
    let resized_capa = resized_capacity capacity (buf.capacity b)
    _ ← resize_to resized_capa
    length ← elim insert [ none ↦ pure 0 | some values ↦ insert_values values 0 ]
    pure (elim resized_capa [ none ↦ false | some _ ↦ true ], length)

module _ {B S V N : Type 0} (buf : Buffer B S) (resizable : Resize B)
    (ins : InsertIntoBuffer B V) where
  unfoldable pub try_dequeue_and_resize :
      Notify N
      → Option ℕ
      → Option (List V)
      → Cmd (Queue B N) (Result (BufferSlice S) TryDequeueError)
  try_dequeue_and_resize notifier capacity insert =
      locked_dequeue buf notifier.notify_enqueue
        (some (resize_and_insert buf resizable ins capacity insert))
