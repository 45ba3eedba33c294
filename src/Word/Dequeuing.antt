-- ===== src/Word/Dequeuing.antt =====
-- `DequeuingLength` of src/queue.rs: the length being dequeued above bit 0, which is the index of the
-- dequeuing buffer. A word of ones is the lock.
pub mod Laws
use Prim.Native.Nat.{bit_and, bit_or}
use swap_buffer_queue.Prelude.{ℕ, ◌==◌, if◌then◌else◌}
use swap_buffer_queue.Error.{Result, ok, err, TryDequeueError, conflict}
use swap_buffer_queue.Word.{shl, shr, dequeuing_locked}

abbrev pub DequeuingLength : Type 0
DequeuingLength = ℕ

unfoldable pub new : ℕ → ℕ → DequeuingLength
new buffer_index length = bit_or buffer_index (shl length 1)

unfoldable pub buffer_index : DequeuingLength → ℕ
buffer_index word = bit_and word 1

unfoldable pub buffer_len : DequeuingLength → ℕ
buffer_len word = shr word 1

unfoldable pub try_from_atomic : ℕ → Result DequeuingLength TryDequeueError
try_from_atomic atomic = if atomic == dequeuing_locked then err conflict else ok atomic
