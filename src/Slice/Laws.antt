-- ===== src/Slice/Laws.antt =====
-- The slices and iterators of src/buffer.rs against the abstract queue.
use native.Mathlib.Nat.{add-zero}
use swap_buffer_queue.Prelude.{
  ℕ, zero, suc, ◌+◌, ◌-◌, ◌≡◌, refl, none, some, List, [], ◌∷◌, length, take, drop, arith,
}
use swap_buffer_queue.Prelude.Run.{done}
use swap_buffer_queue.Buffer.{Buffer, BufferLaws, Drain, DrainLaws}
use swap_buffer_queue.Queue.{Queue}
use swap_buffer_queue.Queue.Spec.{taken, Spec, requeue_phase}
use swap_buffer_queue.Queue.Repr.{Repr, InPhase}
use swap_buffer_queue.Queue.Dequeue.{BufferSlice}
use swap_buffer_queue.Queue.Dequeue.Answer.{Shows}
use swap_buffer_queue.Queue.Dequeue.Release.{requeue_refines, remove_refines}
use swap_buffer_queue.Slice.{BufferIter, into_iter, is_empty, next, next_times, drain_some}

-- The range of an iterator is where these items stand.
pub record Ranges {X : Type 0} (iter : BufferIter) (index from : ℕ) (xs : List X) : Type 0 where
  pub buffer_index : iter.buffer_index ≡ index
  pub start : iter.start ≡ from
  pub end : iter.end ≡ from + length xs

module _ {B S X : Type 0} {buf : Buffer B S} (laws : BufferLaws X buf) {drain : Drain B X}
    (drains : DrainLaws laws drain) {N : Type 0} where
  -- One call of `next`.
  pub next-some :
      (q : Queue B N) (index : ℕ) (s : Spec X) (start : ℕ) (x : X) (xs : List X) (iter : BufferIter)
      → Repr laws N q index s
      → InPhase laws N q (1 - index) (taken start (x ∷ xs))
      → Ranges iter (1 - index) start (x ∷ xs)
      → (q' : Queue B N) × (next drain iter q
          ≡ done (some x, record iter { start = iter.start + 1 }) q')
        × Repr laws N q' index (record s { phase = taken (suc start) xs })
  unfolding next is_empty
  next-some q index s start x xs iter repr (word, waits) ranges =
      let (q', removed, after) = remove_refines laws drains q index s repr start x xs word waits in
      (q', ground (arith, ranges), after)

  pub next-none :
      (q : Queue B N) (index start : ℕ) (iter : BufferIter)
      → Ranges {X = X} iter index start []
      → next drain iter q ≡ done (none, iter) q
  unfolding next is_empty
  next-none q index start iter ranges = ground arith

  -- The caller gets the first items, in order, and the iterator keeps the rest.
  pub next_times_refines :
      (times : ℕ) (q : Queue B N) (index : ℕ) (s : Spec X) (start : ℕ) (xs : List X)
      (iter : BufferIter)
      → Repr laws N q index (record s { phase = taken start xs })
      → Ranges iter (1 - index) start xs
      → (q' : Queue B N) × (iter' : BufferIter) × (next_times drain times iter q
          ≡ done (take times xs, iter') q')
        × Ranges iter' (1 - index) (start + length (take times xs)) (drop times xs)
        × Repr laws N q' index
            (record s { phase = taken (start + length (take times xs)) (drop times xs) })
  unfolding next_times
  next_times_refines zero q index s start xs iter repr ranges =
      rw add-zero (q, iter, refl, ranges, repr)
  next_times_refines (suc times) q index s start [] iter repr ranges =
      rw add-zero (q, iter, rw (next-none q (1 - index) start iter ranges), ranges, repr)
  next_times_refines (suc times) q index s start (x ∷ xs) iter repr ranges =
      let (q₁, given, after) =
        next-some q index (record s { phase = taken start (x ∷ xs) }) start x xs iter repr
          repr.phase ranges in
      let ranges₁ : Ranges (record iter { start = iter.start + 1 }) (1 - index) (suc start) xs =
        record {
          buffer_index = ranges.buffer_index;
          start = omega (arith, ranges.start);
          end = omega (arith, ranges.end);
        } in
      let (q', iter', given', ranges', after') =
        next_times_refines times q₁ index s (suc start) xs (record iter { start = iter.start + 1 })
          after ranges₁ in
      let moved : start + suc (length (take times xs)) ≡ suc start + length (take times xs) =
        omega arith in
      (q', iter', rw (given, given'), rw moved ranges', rw moved after')

  -- With a buffer and a draining that keep their contracts, on a queue that stands for an abstract
  -- one with items taken, which a slice shows: if the caller makes an iterator of the slice, takes
  -- at most `times` items and drops the iterator, it has got the first items in order, and the
  -- queue stands for the abstract one in which the other items wait to be dequeued again, or
  -- nothing does if no item is left.
  pub drop_iter_refines :
      (times : ℕ) (q : Queue B N) (index : ℕ) (s : Spec X) (start : ℕ) (xs : List X) (id : ℕ)
      (slice : BufferSlice S)
      → Repr laws N q index (record s { phase = taken start xs })
      → Shows laws slice (1 - index) (taken start xs)
      → (q' : Queue B N) × (drain_some buf drain times id slice q ≡ done (take times xs) q')
        × Repr laws N q' index
            (record s { phase = requeue_phase (start + length (take times xs)) (drop times xs) })
  unfolding drain_some
  drop_iter_refines times q index s start xs id slice repr (at_index, from, until, shown) =
      let ranges : Ranges (into_iter id slice) (1 - index) start xs = record {
        buffer_index = at_index;
        start = from;
        end = until;
      } in
      let (q₁, iter, given, ranges', after) =
        next_times_refines times q index s start xs (into_iter id slice) repr ranges in
      let (q', dropped, requeued') =
        requeue_refines laws q₁ index
          (record s { phase = taken (start + length (take times xs)) (drop times xs) }) after
          (start + length (take times xs)) (drop times xs) after.phase.1 in
      (q', rw given (ground (arith, ranges')), requeued')
