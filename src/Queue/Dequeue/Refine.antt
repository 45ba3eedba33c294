-- ===== src/Queue/Dequeue/Refine.antt =====
-- `try_dequeue` of src/queue.rs against the abstract queue.
use swap_buffer_queue.Prelude.{
  ℕ, Bool, Option, ◌-◌, ◌^◌, ◌<◌, ◌≡◌, ◌≢◌, refl, subst, none, List, [], length, arith, false, ◌==◌,
  if◌then◌else◌, Bool-cases, inl, inr,
}
use swap_buffer_queue.Prelude.Run.{Cmd, done, fault}
use swap_buffer_queue.Error.{Result, ok, err, TryDequeueError, empty, closed, conflict}
use swap_buffer_queue.Notify.{Notify}
use swap_buffer_queue.Word.{dequeuing_locked}
use swap_buffer_queue.Word.Enqueuing.Laws as Enqueuing
use swap_buffer_queue.Word.Dequeuing.Laws as Words
use swap_buffer_queue.Buffer.{Buffer, BufferLaws}
use swap_buffer_queue.Two.{at, put-at}
use swap_buffer_queue.Queue.{Queue}
use swap_buffer_queue.Queue.Spec.{Phase, idle, requeued, taken, Spec, swap, dequeue_in, dequeue}
use swap_buffer_queue.Queue.Repr.{Repr, Repr-phase, InPhase, Waits, Waits-same}
use swap_buffer_queue.Queue.Dequeue.{
  BufferSlice, add_inserted, after_swap, try_dequeue_step, try_dequeue_internal, locked_dequeue,
  try_dequeue,
}
use swap_buffer_queue.Queue.Dequeue.Answer.{Answers, Refined}
use swap_buffer_queue.Queue.Dequeue.Spin.{
  locked, lock_dequeuing-free, lock_dequeuing-taken, slice_of, spin_or_pending-ready,
}
use swap_buffer_queue.Queue.Dequeue.Swap.{
  resized_queue, swapped, try_dequeue_step-idle, swap_buffers-done,
}

resized_queue-none :
    {B N : Type 0} (q : Queue B N) (index : ℕ) → resized_queue q index (at index q.buffers) 0 ≡ q
unfolding add_inserted
resized_queue-none q index = rw put-at

module _ {B S X : Type 0} {buf : Buffer B S} (laws : BufferLaws X buf) {N : Type 0} where
  open laws use {slots, contents, capacity-slots}

  module _ (notify : N → N) (q : Queue B N) (index : ℕ) (s : Spec X)
      (repr : Repr laws N q index s) where
    -- `taken`: the lock is held, and a closure is not called.
    pub taken_refines :
        (resize : Option (Cmd B (Bool × ℕ))) (start : ℕ) (xs : List X)
        → InPhase laws N q (1 - index) (taken start xs)
        → Refined laws (locked_dequeue buf notify resize) q index (err conflict, s)
    unfolding locked_dequeue
    taken_refines resize start xs (word, waits) =
        (err conflict, q, index, rw (lock_dequeuing-taken q word), refl, refl, repr)

    -- `requeued`: what waits comes out again, and a closure is not called.
    pub requeued_refines :
        (resize : Option (Cmd B (Bool × ℕ))) (start : ℕ) (xs : List X)
        → InPhase laws N q (1 - index) (requeued start xs)
        → Refined laws
            (locked_dequeue buf notify resize)
            q
            index
            (ok xs, record s { phase = taken start xs })
    unfolding locked_dequeue try_dequeue_internal try_dequeue_step
    requeued_refines resize start xs (word, pos, waits) =
        let waits' : Waits laws N (locked q) (1 - index) start xs =
          Waits-same laws N q (locked q) (1 - index) start xs refl refl waits in
        let small : length xs < 2 ^ 62 =
          omega (arith, waits.fits, repr.spare_slots, repr.spare_small) in
        let (r, spun, shown) = spin_or_pending-ready laws (locked q) (1 - index) start xs waits' in
        (
          ok (slice_of (1 - index) start (length xs) r),
          locked q,
          index,
          ground (
            arith,
            lock_dequeuing-free q (1 - index) (length xs) (omega arith) (omega arith) word,
            Words.buffer_index-word_of (1 - index) (length xs) (omega arith) (omega arith),
            Words.buffer_len-word_of (1 - index) (length xs) (omega arith) (omega arith),
          ),
          (slice_of (1 - index) start (length xs) r, refl, shown, (refl, refl, refl, shown)),
          tt,
          Repr-phase laws N dequeuing_locked (taken start xs) repr (refl, waits'),
        )

    abbrev room_left : ℕ
    room_left = s.room - length s.enqueued

    fits : Enqueuing.Fits index room_left
    fits = omega (arith, repr.index_small, repr.room_small)

    -- The step from `idle`, with no closure.
    idle_step :
        (retry : ℕ → Cmd (Queue B N) (Result (BufferSlice S) TryDequeueError))
        → try_dequeue_step buf retry (Words.word_of (1 - index) 0) notify none (locked q) ≡ (
            if length s.enqueued == 0
            then done
                (err (if s.is_shut then closed else empty))
                (record q { dequeuing_length = Words.word_of (1 - index) 0 })
            else after_swap buf retry index
                (length s.enqueued)
                0
                (swapped buf retry notify (locked q) index s.spare 0 s.is_shut))
    idle_step retry = ground (
      arith,
      try_dequeue_step-idle buf retry notify (locked q) index room_left s.is_shut false 0 none
          (at (1 - index) q.buffers) fits repr.word refl,
      resized_queue-none (locked q) (1 - index),
      capacity-slots (at index q.buffers),
      capacity-slots (at (1 - index) q.buffers),
      repr.room_slots,
      repr.spare_slots,
      repr.within,
      swap_buffers-done buf retry notify (locked q) index s.spare 0 s.room (length s.enqueued)
          s.is_shut repr.index_small repr.spare_small repr.room_small repr.within repr.word
          (omega arith),
    )

    empty_refines :
        InPhase laws N q (1 - index) idle
        → length s.enqueued ≡ 0
        → Refined laws
            (locked_dequeue buf notify none)
            q
            index
            (err (if s.is_shut then closed else empty), s)
    unfolding locked_dequeue try_dequeue_internal
    empty_refines (word, acked, clean) none_left = (
      err (if s.is_shut then closed else empty),
      record q { dequeuing_length = Words.word_of (1 - index) 0 },
      index,
      ground (
        arith,
        lock_dequeuing-free q (1 - index) 0 (omega arith) (omega arith) word,
        idle_step (λ again. try_dequeue_step buf (λ _ _. fault) again notify none),
      ),
      refl,
      refl,
      subst (λ w. Repr laws N (record q { dequeuing_length = w }) index s) word repr,
    )

    -- The queue after the swap, and what it stands for.
    abbrev after : Queue B N
    after = swapped buf (λ _ _. fault) notify (locked q) index s.spare 0 s.is_shut

    abbrev pub next_spec : Spec X
    next_spec = record s {
      enqueued = [];
      room = s.spare;
      spare = s.room;
      phase = taken 0 s.enqueued;
    }

    after-Waits : Waits laws N after index 0 s.enqueued
    after-Waits = record {
      acked = omega (arith, repr.acked);
      fits = omega (arith, repr.room_slots, repr.within);
      held = repr.held;
      clean_below = λ k low high. absurd (omega (arith, high));
      clean_above = λ k low high. repr.clean k (omega (arith, low)) high;
    }

    after-Repr : InPhase laws N q (1 - index) idle → Repr laws N after (1 - index) next_spec
    after-Repr (word, acked, clean) =
        let back : 1 - (1 - index) ≡ index = omega (arith, repr.index_small) in
        record {
          index_small = omega arith;
          room_small = repr.spare_small;
          spare_small = repr.room_small;
          within = omega arith;
          word = refl;
          room_slots = repr.spare_slots;
          spare_slots = rw back repr.room_slots;
          acked = acked;
          held = tt;
          clean = clean;
          capacity = refl;
          phase = rw back (refl, after-Waits);
        }

    -- A call that finds items to dequeue, with the lock held and nothing out.
    pub swap_step :
        (retry : ℕ → Cmd (Queue B N) (Result (BufferSlice S) TryDequeueError))
        → InPhase laws N q (1 - index) idle
        → length s.enqueued ≢ 0
        → (r : Result (BufferSlice S) TryDequeueError) × (q' : Queue B N) × (try_dequeue_step buf
              retry
              (Words.word_of (1 - index) 0)
              notify
              none
              (locked q)
            ≡ done r q')
          × Answers laws (ok s.enqueued) index (taken 0 s.enqueued) r
          × Repr laws N q' (1 - index) next_spec
    unfolding after_swap
    swap_step retry in_phase some_left =
        let (r, spun, shown) = spin_or_pending-ready laws after index 0 s.enqueued after-Waits in
        (
          ok (slice_of index 0 (length s.enqueued) r),
          after,
          ground (arith, idle_step retry),
          (slice_of index 0 (length s.enqueued) r, refl, shown, (refl, refl, refl, shown)),
          after-Repr in_phase,
        )

    swap_refines :
        InPhase laws N q (1 - index) idle
        → length s.enqueued ≢ 0
        → Refined laws (locked_dequeue buf notify none) q index (ok s.enqueued, next_spec)
    unfolding locked_dequeue try_dequeue_internal
    swap_refines in_phase some_left =
        let back : 1 - (1 - index) ≡ index = omega (arith, repr.index_small) in
        let retry : ℕ → Cmd (Queue B N) (Result (BufferSlice S) TryDequeueError) =
          λ again. try_dequeue_step buf (λ _ _. fault) again notify none in
        let (r, q', ran, answers, repr') = swap_step retry in_phase some_left in
        (
          r,
          q',
          1 - index,
          ground
              (arith, lock_dequeuing-free q (1 - index) 0 (omega arith) (omega arith) in_phase.0),
          rw back answers,
          tt,
          repr',
        )

  -- What `locked_dequeue` does with no closure, in every phase.
  pub locked_dequeue_refines :
      (notify : N → N) (q : Queue B N) (index : ℕ) (s : Spec X) (phase : Phase X)
      → s.phase ≡ phase
      → Repr laws N q index s
      → Refined laws (locked_dequeue buf notify none) q index (dequeue_in phase s)
  unfolding dequeue_in swap
  locked_dequeue_refines notify q index s idle is_phase repr =
      let in_phase : InPhase laws N q (1 - index) idle =
        subst (InPhase laws N q (1 - index)) is_phase repr.phase in
      elim (Bool-cases (length s.enqueued == 0)) [
        | inl e ↦ rw e (empty_refines notify q index s repr in_phase (ground arith))
        | inr ne ↦ rw ne (swap_refines notify q index s repr in_phase (ground arith))
      ]
  locked_dequeue_refines notify q index s (requeued start xs) is_phase repr =
      requeued_refines notify q index s repr none start xs
        (subst (InPhase laws N q (1 - index)) is_phase repr.phase)
  locked_dequeue_refines notify q index s (taken start xs) is_phase repr =
      taken_refines notify q index s repr none start xs
        (subst (InPhase laws N q (1 - index)) is_phase repr.phase)

  -- With a buffer that keeps its contract, on a queue that stands for an abstract one,
  -- `try_dequeue` runs to its end with the answer of the abstract queue: a slice that shows the
  -- same items in the same order, or the same error. It leaves a queue that stands for the abstract
  -- one after the operation.
  pub try_dequeue_refines :
      (notifier : Notify N) (q : Queue B N) (index : ℕ) (s : Spec X)
      → Repr laws N q index s
      → Refined laws (try_dequeue buf notifier) q index (dequeue s)
  unfolding try_dequeue dequeue
  try_dequeue_refines notifier q index s repr =
      locked_dequeue_refines notifier.notify_enqueue q index s s.phase refl repr
