-- ===== src/Word/Dequeuing/Laws.antt =====
-- What the fields of the dequeuing word are.
use swap_buffer_queue.Prelude.{ℕ, ◌+◌, ◌*◌, ◌^◌, ◌<◌, ◌≡◌, arith}
use swap_buffer_queue.Prelude.Bits.{bit_and_low, bit_or_high, zero-bit_or}
use swap_buffer_queue.Error.{ok, err, conflict}
use swap_buffer_queue.Word.{dequeuing_locked}
use swap_buffer_queue.Word.Dequeuing.{
  DequeuingLength, new, buffer_index, buffer_len, try_from_atomic,
}

-- A word with these fields.
abbrev pub word_of : ℕ → ℕ → DequeuingLength
word_of index len = index + len * 2

module _ (index len : ℕ) (small : index < 2) (fits : len < 2 ^ 62) where
  pub new-word_of : new index len ≡ word_of index len
  unfolding new
  new-word_of = ground (arith, bit_or_high 1 0 index len (omega arith), zero-bit_or len)

  pub buffer_index-word_of : buffer_index (word_of index len) ≡ index
  unfolding buffer_index
  buffer_index-word_of = ground (arith, bit_and_low 1 len index (omega arith))

  pub buffer_len-word_of : buffer_len (word_of index len) ≡ len
  unfolding buffer_len
  buffer_len-word_of = omega arith

  -- No word of the queue is taken for the lock.
  pub try_from_atomic-word_of : try_from_atomic (word_of index len) ≡ ok (word_of index len)
  unfolding try_from_atomic
  try_from_atomic-word_of = ground arith

-- A word that is made of a buffer index below two and a length below `2 ^ 62` gives both back, and is
-- not taken for the lock.
pub dequeuing_fields :
    (index len : ℕ)
    → index < 2
    → len < 2 ^ 62
    → (buffer_index (new index len) ≡ index)
      × (buffer_len (new index len) ≡ len)
      × (try_from_atomic (new index len) ≡ ok (new index len))
dequeuing_fields index len small fits =
    let word : new index len ≡ word_of index len = new-word_of index len small fits in
    (
      rw word (buffer_index-word_of index len small fits),
      rw word (buffer_len-word_of index len small fits),
      rw word (try_from_atomic-word_of index len small fits),
    )

pub try_from_atomic-locked : try_from_atomic dequeuing_locked ≡ err conflict
unfolding try_from_atomic
try_from_atomic-locked = ground arith
