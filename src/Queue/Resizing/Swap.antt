-- ===== src/Queue/Resizing/Swap.antt =====
-- The dequeuing of src/queue.rs with a closure that works on the buffer which is enqueued into next,
-- as `try_dequeue_and_resize` passes it, against the abstract queue.
use swap_buffer_queue.Prelude.{
  ℕ, ◌-◌, ◌≤◌, ◌<◌, ◌≡◌, ◌≢◌, refl, ◌∙◌, Bool, none, some, List, [], length, arith, true, false,
  not, ◌&&◌, ◌==◌, if◌then◌else◌, Bool-cases, inl, inr,
}
use swap_buffer_queue.Prelude.Run.{Cmd, done, fault}
use swap_buffer_queue.Prelude.Slots.{Holds, Free}
use swap_buffer_queue.Error.{Result, ok, err, TryDequeueError, empty, closed}
use swap_buffer_queue.Word.{dequeuing_locked}
use swap_buffer_queue.Word.Dequeuing.Laws as Words
use swap_buffer_queue.Buffer.{Buffer, BufferLaws}
use swap_buffer_queue.Two.{at, put, at-put_self, at-put_back, put-at}
use swap_buffer_queue.Queue.{Queue}
use swap_buffer_queue.Queue.Spec.{Phase, idle, taken, Spec, swap_resized}
use swap_buffer_queue.Queue.Repr.{max_capacity, Repr, Repr-side, InPhase, Waits}
use swap_buffer_queue.Queue.Dequeue.{
  BufferSlice, lock_dequeuing, add_inserted, after_swap, try_dequeue_internal, try_dequeue_step,
  locked_dequeue,
}
use swap_buffer_queue.Queue.Dequeue.Answer.{Answers}
use swap_buffer_queue.Queue.Dequeue.Refine.{swap_step}
use swap_buffer_queue.Queue.Dequeue.Spin.{
  locked, lock_dequeuing-free, slice_of, spin_or_pending-ready,
}
use swap_buffer_queue.Queue.Dequeue.Swap.{
  resized_queue, swapped, try_dequeue_step-idle, swap_buffers-done,
}

module _ {B S X N : Type 0} {buf : Buffer B S} (laws : BufferLaws X buf) (notify : N → N)
    (q : Queue B N) (index : ℕ) (s : Spec X) (repr : Repr laws N q index s)
    (in_phase : InPhase laws N q (1 - index) idle) (closure : Cmd B (Bool × ℕ)) (resized : Bool)
    (n : ℕ) (xs : List X) (b : B)
    (ran : closure (at (1 - index) q.buffers) ≡ done (resized, length xs) b)
    (room : length (laws.slots b) ≡ n) (small : n < max_capacity) (fits : length xs ≤ n)
    (held : Holds (laws.slots b) 0 xs)
    (clean : Free (laws.slots b) (length xs) (length (laws.slots b))) where
  open laws use {slots, capacity-slots}

  abbrev again : ℕ → Cmd (Queue B N) (Result (BufferSlice S) TryDequeueError)
  again = λ w. try_dequeue_step buf (λ _ _. fault) w notify none

  -- The queue with the buffer that the closure leaves.
  abbrev grown : Queue B N
  grown = record (locked q) {
    buffers = put (1 - index) b q.buffers;
    buffers_length = put (1 - index) (length xs) q.buffers_length;
  }

  resized_queue-grown : resized_queue (locked q) (1 - index) b (length xs) ≡ grown
  unfolding add_inserted
  resized_queue-grown = elim (Bool-cases (length xs == 0)) [
    | inl e ↦
        let none_there : length xs ≡ at (1 - index) q.buffers_length =
          ground (arith, e, in_phase.1) in
        let same : put (1 - index) (length xs) q.buffers_length ≡ q.buffers_length =
          rw (none_there, put-at) in
        rw same (ground (arith, e))
    | inr ne ↦ ground (arith, ne, in_phase.1)
  ]

  abbrev swapped_queue : Queue B N
  swapped_queue = swapped buf again notify grown index n (length xs) s.is_shut

  step-resized :
      try_dequeue_step buf again (Words.word_of (1 - index) 0) notify (some closure) (locked q) ≡ (
        if (length s.enqueued == 0) && not resized && (length xs == 0)
        then done
            (err (if s.is_shut then closed else empty))
            (record grown { dequeuing_length = Words.word_of (1 - index) 0 })
        else after_swap buf again index (length s.enqueued) (length xs) swapped_queue)
  step-resized = ground (
    arith,
    resized_queue-grown,
    try_dequeue_step-idle buf again notify (locked q) index (s.room - length s.enqueued) s.is_shut
        resized (length xs) (some closure) b (omega (arith, repr.index_small, repr.room_small))
        repr.word ran,
    capacity-slots (at index q.buffers),
    capacity-slots b,
    room,
    repr.room_slots,
    repr.within,
    swap_buffers-done buf again notify grown index n (length xs) s.room (length s.enqueued)
        s.is_shut repr.index_small small repr.room_small repr.within repr.word fits,
  )

  back : 1 - (1 - index) ≡ index
  back = omega (arith, repr.index_small)

  swapped-Waits : Waits laws N swapped_queue index 0 s.enqueued
  swapped-Waits =
      let same : at index (put (1 - index) b q.buffers) ≡ at index q.buffers =
        at-put_back index b q.buffers repr.index_small in
      record {
        acked =
            at-put_back index (length xs) q.buffers_length repr.index_small
            ∙ omega (arith, repr.acked);
        fits = rw same (omega (arith, repr.room_slots, repr.within));
        held = rw same repr.held;
        clean_below = λ k low high. absurd (omega (arith, high));
        clean_above = rw same (λ k low high. repr.clean k (omega (arith, low)) high);
      }

  swapped-Free :
      length s.enqueued ≡ 0
      → Free
          (slots (at index swapped_queue.buffers))
          0
          (length (slots (at index swapped_queue.buffers)))
  swapped-Free none_left k low high = swapped-Waits.clean_above k (omega (arith, none_left)) high

  -- What the swapped queue stands for, with this dequeuing word.
  resized-Repr :
      (word : ℕ) (phase : Phase X)
      → InPhase laws N (record swapped_queue { dequeuing_length = word }) index phase
      → Repr laws N
          (record swapped_queue { dequeuing_length = word })
          (1 - index)
          (record s { enqueued = xs; room = n; spare = s.room; phase = phase })
  resized-Repr word phase ends = record {
    index_small = omega arith;
    room_small = small;
    spare_small = repr.room_small;
    within = fits;
    word = refl;
    room_slots = rw (at-put_self (1 - index) b q.buffers) room;
    spare_slots = rw (back, at-put_back index b q.buffers repr.index_small) repr.room_slots;
    acked = at-put_self (1 - index) (length xs) q.buffers_length;
    held = rw (at-put_self (1 - index) b q.buffers) held;
    clean = rw (at-put_self (1 - index) b q.buffers) clean;
    capacity = refl;
    phase = rw back ends;
  }

  -- A run that ends with this answer.
  abbrev pub Resized : Result (List X) TryDequeueError × Spec X → Type 0
  Resized answer =
      (r : Result (BufferSlice S) TryDequeueError) × (q' : Queue B N) × (index' : ℕ)
      × (locked_dequeue buf notify (some closure) q ≡ done r q')
      × Answers laws answer.0 (1 - index') answer.1.phase r
      × Repr laws N q' index' answer.1

  free : lock_dequeuing q ≡ done (ok (Words.word_of (1 - index) 0)) (locked q)
  free = lock_dequeuing-free q (1 - index) 0 (omega arith) (omega arith) in_phase.0

  -- Something is enqueued.
  Resized-enqueued :
      length s.enqueued ≢ 0
      → Resized (
        ok s.enqueued,
        record s { enqueued = xs; room = n; spare = s.room; phase = taken 0 s.enqueued },
      )
  unfolding locked_dequeue try_dequeue_internal after_swap
  Resized-enqueued some_left =
      let (r, spun, shown) =
        spin_or_pending-ready laws swapped_queue index 0 s.enqueued swapped-Waits in
      (
        ok (slice_of index 0 (length s.enqueued) r),
        swapped_queue,
        1 - index,
        ground (arith, free, step-resized),
        rw back (slice_of index 0 (length s.enqueued) r, refl, shown, (refl, refl, refl, shown)),
        resized-Repr dequeuing_locked (taken 0 s.enqueued) (refl, swapped-Waits),
      )

  -- Nothing is enqueued, and something is inserted.
  Resized-inserted :
      length s.enqueued ≡ 0
      → length xs ≢ 0
      → Resized (ok xs, record s { enqueued = []; spare = n; phase = taken 0 xs })
  unfolding locked_dequeue try_dequeue_internal after_swap
  Resized-inserted none_left some_in =
      let word : ℕ = Words.word_of index 0 in
      let waiting : InPhase laws N (record swapped_queue { dequeuing_length = word }) index idle =
        (refl, omega (arith, swapped-Waits.acked, none_left), swapped-Free none_left) in
      let (r, q', taken_out, answers, repr') =
        swap_step laws notify (record swapped_queue { dequeuing_length = word }) (1 - index)
          (record s { enqueued = xs; room = n; spare = s.room; phase = idle })
          (resized-Repr word idle waiting) (λ _ _. fault) (rw back waiting) some_in in
      let resumed : again (Words.word_of index 0) swapped_queue ≡ done r q' =
        rw back at taken_out in
      (
        r,
        q',
        1 - (1 - index),
        ground (
          arith,
          free,
          step-resized,
          Words.new-word_of index 0 repr.index_small (omega arith),
          resumed,
        ),
        rw back answers,
        repr',
      )

  -- Neither, with a new capacity and without.
  Resized-room :
      length s.enqueued ≡ 0
      → length xs ≡ 0
      → resized ≡ true
      → Resized (err empty, record s { enqueued = xs; room = n; spare = s.room; phase = idle })
  unfolding locked_dequeue try_dequeue_internal after_swap
  Resized-room none_left none_in changed = (
    err empty,
    record swapped_queue { dequeuing_length = Words.word_of index 0 },
    1 - index,
    ground (
      arith,
      free,
      step-resized,
      changed,
      Words.new-word_of index 0 repr.index_small (omega arith),
    ),
    refl,
    resized-Repr (Words.word_of index 0) idle
        (refl, omega (arith, swapped-Waits.acked, none_left), swapped-Free none_left),
  )

  Resized-same :
      length s.enqueued ≡ 0
      → length xs ≡ 0
      → resized ≡ false
      → n ≡ s.spare
      → Resized (err (if s.is_shut then closed else empty), record s { phase = idle })
  unfolding locked_dequeue try_dequeue_internal
  Resized-same none_left none_in unchanged same = (
    err (if s.is_shut then closed else empty),
    record grown { dequeuing_length = Words.word_of (1 - index) 0 },
    index,
    ground (arith, free, step-resized, unchanged),
    refl,
    Repr-side laws N idle repr refl refl (at-put_back index b q.buffers repr.index_small)
        (at-put_back index (length xs) q.buffers_length repr.index_small)
        (rw (at-put_self (1 - index) b q.buffers) (room ∙ same))
        (
          refl,
          at-put_self (1 - index) (length xs) q.buffers_length ∙ none_in,
          rw (at-put_self (1 - index) b q.buffers) (rw none_in at clean),
        ),
  )

  -- A call with a closure that leaves such a buffer, from `idle`.
  pub closure_refines : (resized ≡ false → n ≡ s.spare) → Resized (swap_resized resized n xs s)
  closure_refines kept = elim (Bool-cases (length s.enqueued == 0)) [
    | inr ne ↦ rw ne (Resized-enqueued (ground (arith, ne)))
    | inl e ↦ elim (Bool-cases (length xs == 0)) [
      | inr ne ↦ rw (e, ne) (Resized-inserted (ground (arith, e)) (ground (arith, ne)))
      | inl e' ↦ elim (Bool-cases resized) [
        | inl changed ↦
            rw (e, e', changed) (Resized-room (ground (arith, e)) (ground (arith, e')) changed)
        | inr same ↦
            rw (e, e', same)
              (Resized-same (ground (arith, e)) (ground (arith, e')) same (kept same))
      ]
    ]
  ]
