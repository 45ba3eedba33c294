-- ===== src/Queue/Dequeue/Release.antt =====
-- `release`, `requeue` and `remove` of src/queue.rs against the abstract queue.
use swap_buffer_queue.Prelude.{
  ℕ, suc, ◌+◌, ◌-◌, ◌^◌, ◌<◌, ◌≡◌, refl, ap, ◌∙◌, Option, none, List, ◌∷◌, length-set, length,
  arith, ltb, Bool-cases, inl, inr,
}
use swap_buffer_queue.Prelude.Run.{done, zoom}
use swap_buffer_queue.Prelude.Slots.{Holds, Holds-set_below, Free, length-emptied}
use swap_buffer_queue.Prelude.Free.{Free-cleared, Free-set-none}
use swap_buffer_queue.Word.{sub_usize, dequeuing_locked}
use swap_buffer_queue.Word.Dequeuing.Laws as Words
use swap_buffer_queue.Buffer.{Buffer, BufferLaws, Drain, DrainLaws}
use swap_buffer_queue.Two.{at, put, at-put_self, at-put_back}
use swap_buffer_queue.Queue.{Queue}
use swap_buffer_queue.Queue.Spec.{idle, requeued, taken, Spec, requeue_phase}
use swap_buffer_queue.Queue.Repr.{Repr, Repr-side, Repr-phase, Waits, Waits-same}
use swap_buffer_queue.Queue.Dequeue.{release, requeue, remove}

module _ {B S X : Type 0} {buf : Buffer B S} (laws : BufferLaws X buf) {N : Type 0} (q : Queue B N)
    (index : ℕ) (s : Spec X) (repr : Repr laws N q index s) (start : ℕ) (xs : List X)
    (waits : Waits laws N q (1 - index) start xs) where
  open laws use {slots, clear_lem}

  -- On a queue that stands for an abstract one, with items taken and standing in the dequeued buffer,
  -- `release` of their range runs to its end, and the queue stands for the abstract one in which
  -- nothing is dequeued: the lock is free, the length of the buffer is zero, and every slot of it is
  -- empty, those of the range having been cleared, so that the buffer can be swapped in.
  pub release_refines :
      (q' : Queue B N) × (release buf (1 - index) start (start + length xs) q ≡ done tt q')
      × Free (slots (at (1 - index) q'.buffers)) 0 s.spare
      × Repr laws N q' index (record s { phase = idle })
  unfolding release
  release_refines =
      let (b, cleared, slots') =
        clear_lem (at (1 - index) q.buffers) start xs waits.held waits.fits in
      let stored : at (1 - index) (put (1 - index) b q.buffers) ≡ b =
        at-put_self (1 - index) b q.buffers in
      let same : length (slots b) ≡ s.spare =
        ap length slots'
        ∙ length-emptied (slots (at (1 - index) q.buffers)) start (length xs)
        ∙ repr.spare_slots in
      let clean : Free (slots b) 0 (length (slots b)) = rw slots' (
        Free-cleared (slots (at (1 - index) q.buffers)) start (length xs) waits.fits
          waits.clean_below waits.clean_above) in
      (
        record q {
          buffers = put (1 - index) b q.buffers;
          buffers_length = put (1 - index) 0 q.buffers_length;
          dequeuing_length = Words.word_of (1 - index) 0;
        },
        ground (arith, Words.new-word_of (1 - index) 0 (omega arith) (omega arith)),
        rw stored (rw same at clean),
        Repr-side laws N idle repr refl refl (at-put_back index b q.buffers repr.index_small)
            (at-put_back index 0 q.buffers_length repr.index_small) (rw at-put_self same)
            (refl, at-put_self (1 - index) 0 q.buffers_length, rw stored clean),
      )

  -- On a queue that stands for an abstract one, with items that stand in the dequeued buffer, `requeue`
  -- of their range runs to its end, and the queue stands for the abstract one in which they wait to be
  -- dequeued again, or, if there are none, in which nothing is dequeued.
  pub requeue_refines :
      (q' : Queue B N) × (requeue buf (1 - index) start (start + length xs) q ≡ done tt q')
      × Repr laws N q' index (record s { phase = requeue_phase start xs })
  unfolding requeue requeue_phase
  requeue_refines =
      let small : start + length xs < 2 ^ 62 =
        omega (arith, waits.fits, repr.spare_slots, repr.spare_small) in
      let left : sub_usize (start + length xs) start ≡ length xs = omega arith in
      elim (Bool-cases (ltb 0 (length xs))) [
        | inr none_left ↦
            let (q', ran, clean, after) = release_refines in
            (q', rw (left, none_left) ran, rw none_left after)
        | inl some_left ↦
            let word : ℕ = Words.word_of (1 - index) (length xs) in
            let q' : Queue B N = record q { dequeuing_length = word } in
            let waits' : Waits laws N q' (1 - index) start xs =
              Waits-same laws N q q' (1 - index) start xs refl refl waits in
            (
              q',
              ground (arith, Words.new-word_of (1 - index) (length xs) (omega arith) (omega arith)),
              rw some_left
                  (Repr-phase laws N word (requeued start xs) repr (refl, ground arith, waits')),
            )
      ]

module _ {B S X : Type 0} {buf : Buffer B S} (laws : BufferLaws X buf) {drain : Drain B X}
    (drains : DrainLaws laws drain) {N : Type 0} (q : Queue B N) (index : ℕ) (s : Spec X)
    (repr : Repr laws N q index s) where
  open laws use {slots}
  open drains use {remove_lem}

  -- On a queue that stands for an abstract one, which is locked with a first item and others standing
  -- in the dequeued buffer, `remove` at the place of the first gives it, and the queue stands for the
  -- abstract one in which the others are taken.
  pub remove_refines :
      (start : ℕ) (x : X) (xs : List X)
      → q.dequeuing_length ≡ dequeuing_locked
      → Waits laws N q (1 - index) start (x ∷ xs)
      → (q' : Queue B N) × (remove drain (1 - index) start q ≡ done x q')
        × Repr laws N q' index (record s { phase = taken (suc start) xs })
  unfolding remove
  remove_refines start x xs word waits =
      let (b, removed, slots') =
        remove_lem (at (1 - index) q.buffers) start x xs waits.held (omega (arith, waits.fits)) in
      let old : List (Option X) = slots (at (1 - index) q.buffers) in
      let same : length (slots b) ≡ length old = ap length slots' ∙ length-set old start none in
      let rest : Holds (slots b) (suc start) xs =
        rw slots' (Holds-set_below old start (suc start) none xs (omega arith) waits.held.1) in
      let next : start + suc (length xs) ≡ suc start + length xs = omega arith in
      let (below, above) =
        Free-set-none old start 0 (length old) xs (omega (arith, waits.fits)) waits.clean_below
          (rw next at waits.clean_above) in
      let stored : at (1 - index) (put (1 - index) b q.buffers) ≡ b =
        at-put_self (1 - index) b q.buffers in
      (
        record q { buffers = put (1 - index) b q.buffers },
        rw (removed, zoom),
        Repr-side laws N (taken (suc start) xs) repr refl refl
            (at-put_back index b q.buffers repr.index_small) refl
            (rw stored (same ∙ repr.spare_slots))
            (
              word,
              record {
                acked = omega (arith, waits.acked);
                fits = rw stored (omega (arith, same, waits.fits));
                held = rw stored rest;
                clean_below = rw stored (rw slots' below);
                clean_above = rw (stored, same) (rw slots' above);
              },
            ),
      )
