-- ===== src/Queue/Dequeue/Pending.antt =====
-- `Pending` of src/queue.rs: the dequeuing that waits for insertions, and the one that goes on with it.
use swap_buffer_queue.Prelude.{ℕ, ◌^◌, ◌<◌, ◌≡◌, refl, List, length, arith}
use swap_buffer_queue.Prelude.Run.{done}
use swap_buffer_queue.Error.{ok, err, pending}
use swap_buffer_queue.Notify.{Notify}
use swap_buffer_queue.Word.Dequeuing.Laws as Words
use swap_buffer_queue.Buffer.{Buffer, BufferLaws}
use swap_buffer_queue.Two.{at}
use swap_buffer_queue.Queue.{Queue}
use swap_buffer_queue.Queue.Repr.{Waits, Waits-same}
use swap_buffer_queue.Queue.Dequeue.{
  spin_or_pending, locked_dequeue, try_dequeue_internal, try_dequeue_step, try_dequeue,
}
use swap_buffer_queue.Queue.Dequeue.Spin.{
  locked, lock_dequeuing-free, slice_of, spin_or_pending-ready, spin_or_pending-short,
}

module _ {B S X : Type 0} {buf : Buffer B S} (laws : BufferLaws X buf) {N : Type 0} where
  -- The queue that a dequeuing which ends in `Pending` leaves.
  abbrev pub left_pending : (index len : ℕ) → Queue B N → Queue B N
  left_pending index len q = record q { dequeuing_length = Words.word_of index len }

  -- With a buffer that keeps its contract: while fewer items are acknowledged in a buffer than were
  -- reserved, all rounds of the spin loop end in `Pending`, and the dequeuing word that is stored then
  -- frees the lock. After whatever others do to the queue that leaves this word, and by which the
  -- items stand in the buffer up to its acknowledged length, the next `try_dequeue` locks again and
  -- gives the slice of just these items, out of the same buffer.
  pub pending_resumes :
      (notifier : Notify N) (others : Queue B N → Queue B N) (q : Queue B N) (index start : ℕ)
      (xs : List X)
      → index < 2
      → length xs < 2 ^ 62
      → at index q.buffers_length < length xs
      → (others (left_pending index (length xs) q)).dequeuing_length
        ≡ Words.word_of index (length xs)
      → Waits laws N (others (left_pending index (length xs) q)) index start xs
      → (r : S) × (spin_or_pending buf index (length xs) q
          ≡ done (err pending) (left_pending index (length xs) q))
        × (try_dequeue buf notifier (others (left_pending index (length xs) q))
            ≡ done
                (ok (slice_of index start (length xs) r))
                (locked (others (left_pending index (length xs) q))))
        × (laws.contents r ≡ xs)
  unfolding try_dequeue locked_dequeue try_dequeue_internal try_dequeue_step
  pending_resumes notifier others q index start xs small fits short word waits =
      let q' : Queue B N = others (left_pending index (length xs) q) in
      let waits' : Waits laws N (locked q') index start xs =
        Waits-same laws N q' (locked q') index start xs refl refl waits in
      let (r, spun, shown) = spin_or_pending-ready laws (locked q') index start xs waits' in
      (
        r,
        rw (Words.new-word_of index (length xs) small fits) at
            (spin_or_pending-short laws q index (length xs) short),
        ground (
          arith,
          lock_dequeuing-free q' index (length xs) small fits word,
          Words.buffer_index-word_of index (length xs) small fits,
          Words.buffer_len-word_of index (length xs) small fits,
          spun,
        ),
        shown,
      )
