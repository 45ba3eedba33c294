-- ===== src/Queue/Dequeue/Spin.antt =====
-- The lock of the dequeuing side, and the spin loop that waits for insertions.
use swap_buffer_queue.Prelude.{
  ℕ, zero, suc, ◌+◌, ◌-◌, ◌^◌, ◌<◌, ◌≡◌, refl, none, some, leb, true, false, List, length, arith,
}
use swap_buffer_queue.Prelude.Run.{done, zoom}
use swap_buffer_queue.Error.{ok, err, pending, conflict}
use swap_buffer_queue.Word.{dequeuing_locked}
use swap_buffer_queue.Word.Dequeuing
use swap_buffer_queue.Word.Dequeuing.Laws as Words
use swap_buffer_queue.Buffer.{Buffer, BufferLaws}
use swap_buffer_queue.Two.{at, put-at}
use swap_buffer_queue.Queue.{Queue}
use swap_buffer_queue.Queue.Repr.{Waits}
use swap_buffer_queue.Queue.Dequeue.{BufferSlice, lock_dequeuing, try_dequeue_spin, spin_or_pending}

module _ {B N : Type 0} where
  -- The queue with its dequeuing side locked.
  abbrev pub locked : Queue B N → Queue B N
  locked q = record q { dequeuing_length = dequeuing_locked }

  pub lock_dequeuing-free :
      (q : Queue B N) (index len : ℕ)
      → index < 2
      → len < 2 ^ 62
      → q.dequeuing_length ≡ Words.word_of index len
      → lock_dequeuing q ≡ done (ok (Words.word_of index len)) (locked q)
  unfolding lock_dequeuing
  lock_dequeuing-free q index len small fits word =
      ground (arith, Words.try_from_atomic-word_of index len small fits)

  -- A second caller changes nothing.
  pub lock_dequeuing-taken :
      (q : Queue B N)
      → q.dequeuing_length ≡ dequeuing_locked
      → lock_dequeuing q ≡ done (err conflict) q
  unfolding lock_dequeuing
  lock_dequeuing-taken q word = ground (arith, Words.try_from_atomic-locked)

-- The slice of a range of a buffer.
abbrev pub slice_of : {S : Type 0} → ℕ → ℕ → ℕ → S → BufferSlice S
slice_of index start len s = record {
  buffer_index = index;
  start = start;
  end = start + len;
  slice = s;
}

module _ {B S X : Type 0} {buf : Buffer B S} (laws : BufferLaws X buf) {N : Type 0} where
  open laws use {slice_lem}

  -- Items that are all inserted come out in the first round.
  try_dequeue_spin-ready :
      (rounds : ℕ) (q : Queue B N) (index start : ℕ) (xs : List X) (s : S)
      → at index q.buffers_length ≡ start + length xs
      → buf.slice start (start + length xs) (at index q.buffers) ≡ done s (at index q.buffers)
      → try_dequeue_spin buf (suc rounds) index (length xs) q
        ≡ done (some (slice_of index start (length xs) s)) q
  unfolding try_dequeue_spin
  try_dequeue_spin-ready rounds q index start xs s acked sliced =
      let begin : start + length xs - length xs ≡ start = omega arith in
      let reached : leb (length xs) (start + length xs) ≡ true = ground arith in
      rw (acked, reached, begin, sliced, zoom, put-at)

  pub spin_or_pending-ready :
      (q : Queue B N) (index start : ℕ) (xs : List X)
      → Waits laws N q index start xs
      → (s : S) × (spin_or_pending buf index (length xs) q
          ≡ done (ok (slice_of index start (length xs) s)) q)
        × (laws.contents s ≡ xs)
  unfolding spin_or_pending
  spin_or_pending-ready q index start xs waits =
      let (s, sliced, shown) = slice_lem (at index q.buffers) start xs waits.held waits.fits in
      (s, rw (try_dequeue_spin-ready 63 q index start xs s waits.acked sliced), shown)

  -- While less is inserted than was reserved, every round fails, and the state is stored for the
  -- next call.
  try_dequeue_spin-short :
      (rounds : ℕ) (q : Queue B N) (index len : ℕ)
      → at index q.buffers_length < len
      → try_dequeue_spin buf rounds index len q
        ≡ done none (record q { dequeuing_length = Dequeuing.new index len })
  unfolding try_dequeue_spin
  try_dequeue_spin-short zero q index len short = refl
  try_dequeue_spin-short (suc rounds) q index len short =
      let not_reached : leb len (at index q.buffers_length) ≡ false = ground arith in
      rw not_reached (try_dequeue_spin-short rounds q index len short)

  -- While the acknowledged length of a buffer is below what was reserved in it, all rounds of the spin
  -- loop end in `Pending`, no slice is made, and all that changes is the dequeuing word, which then
  -- says which buffer and which length to wait for.
  pub spin_or_pending-short :
      (q : Queue B N) (index len : ℕ)
      → at index q.buffers_length < len
      → spin_or_pending buf index len q
        ≡ done (err pending) (record q { dequeuing_length = Dequeuing.new index len })
  unfolding spin_or_pending
  spin_or_pending-short q index len short = rw (try_dequeue_spin-short 64 q index len short)
