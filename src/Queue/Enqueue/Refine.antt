-- ===== src/Queue/Enqueue/Refine.antt =====
-- `try_enqueue` of src/queue.rs against the abstract queue.
use swap_buffer_queue.Prelude.{
  inl, inr, sym, ◌==◌, Bool-cases, length-append, ℕ, ◌+◌, ◌-◌, ◌^◌, ◌≤◌, ◌<◌, ◌≡◌, ◌≢◌, refl, ◌∙◌,
  ap, true, false, ltb, arith, length, ◌++◌,
}
use swap_buffer_queue.Prelude.Run.{done}
use swap_buffer_queue.Prelude.Slots.{fill, length-fill, Holds-fill, Holds-fill_above, Holds-append}
use swap_buffer_queue.Prelude.Free.{Free-fill}
use swap_buffer_queue.Error.{Result, ok, err}
use swap_buffer_queue.Notify.{Notify}
use swap_buffer_queue.Word.Enqueuing.Laws as Enqueuing
use swap_buffer_queue.Buffer.{Buffer, BufferLaws, InsertIntoBuffer, InsertLaws}
use swap_buffer_queue.Queue.{Queue}
use swap_buffer_queue.Two.{at, put, at-put_self, at-put_other}
use swap_buffer_queue.Queue.Spec.{Spec, Refusal, no_room, enqueue}
use swap_buffer_queue.Queue.Repr.{Repr, InPhase-same}
use swap_buffer_queue.Queue.Enqueue.{commit, try_enqueue}
use swap_buffer_queue.Queue.Enqueue.Answer.{reply}
use swap_buffer_queue.Queue.Enqueue.Reserve.{reserve-closed, reserve-no_room, reserve-room}

module _ {B S N V X : Type 0} {buf : Buffer B S} (laws : BufferLaws X buf)
    {ins : InsertIntoBuffer B V} (into : InsertLaws laws ins) (notifier : Notify N) where
  open laws use {slots, capacity-slots}
  open into use {items, size-items, insert_into_lem}

  -- The queue that `commit` leaves, with this buffer in place of the old one.
  abbrev committed : Queue B N → ℕ → B → ℕ → Queue B N
  committed q index b total = record q {
    buffers = put index b q.buffers;
    buffers_length = put index total q.buffers_length;
    notify = notifier.notify_dequeue q.notify;
  }

  commit-done :
      (q : Queue B N) (v : V) (index remaining filled : ℕ) (b' : B)
      → Enqueuing.Fits index remaining
      → remaining + filled < 2 ^ 62
      → filled + length (items v) < 2 ^ 62
      → length (slots (at index q.buffers)) ≡ remaining + filled
      → at index q.buffers_length ≡ filled
      → ins.insert_into v filled (at index q.buffers) ≡ done tt b'
      → commit buf ins notifier v (Enqueuing.word_of index remaining false) q
        ≡ done tt (committed q index b' (filled + length (items v)))
  unfolding commit
  commit-done q v index remaining filled b' fits small small' room acked inserted = ground (
    arith,
    Enqueuing.buffer_index-word_of index remaining false fits,
    Enqueuing.remaining_capacity-word_of index remaining false fits,
    capacity-slots (at index q.buffers),
    size-items v,
  )

  module _ (spurious : ℕ) (v : V) (q : Queue B N) (index : ℕ) (s : Spec X)
      (repr : Repr laws N q index s) (small : length (items v) < 2 ^ 63) where
    abbrev Refined : Result (Unit {0}) Refusal × Spec X → Type 0
    Refined answer =
        (q' : Queue B N) × (try_enqueue buf ins notifier spurious v q ≡ done (reply v answer.0) q')
        × Repr laws N q' index answer.1

    abbrev remaining : ℕ
    remaining = s.room - length s.enqueued

    fits : Enqueuing.Fits index remaining
    fits = omega (arith, repr.index_small, repr.room_small)

    empty_refines : length (items v) ≡ 0 → Refined (ok tt, s)
    unfolding try_enqueue
    empty_refines none_left = (q, ground (arith, size-items v), repr)

    closed_refines : length (items v) ≢ 0 → s.is_shut ≡ true → Refined (err Refusal.is_closed, s)
    unfolding try_enqueue
    closed_refines some_left shut = (
      q,
      ground (
        arith,
        size-items v,
        reserve-closed ins q index remaining fits spurious v (rw shut at repr.word),
      ),
      repr,
    )

    no_room_refines :
        length (items v) ≢ 0
        → s.is_shut ≡ false
        → s.room < length s.enqueued + length (items v)
        → Refined (err no_room, s)
    unfolding try_enqueue
    no_room_refines some_left open_word more = (
      q,
      ground (
        arith,
        size-items v,
        reserve-no_room ins q index remaining fits v (omega (arith, size-items v))
            (rw open_word at repr.word) spurious (omega (arith, size-items v, repr.within)),
      ),
      repr,
    )

    -- The queue after the reservation.
    abbrev reserved : Queue B N
    reserved = record q {
      enqueuing_capacity = Enqueuing.word_of index (remaining - length (items v)) false;
    }

    enqueued_Repr :
        (b' : B)
        → s.is_shut ≡ false
        → length s.enqueued + length (items v) ≤ s.room
        → slots b' ≡ fill (slots (at index q.buffers)) (length s.enqueued) (items v)
        → Repr laws N
            (committed reserved index b' (length s.enqueued + length (items v)))
            index
            (record s { enqueued = s.enqueued ++ items v })
    enqueued_Repr b' open_word fewer written =
        let slots' : slots (at index (put index b' q.buffers))
            ≡ fill (slots (at index q.buffers)) (length s.enqueued) (items v) =
          ap slots (at-put_self index b' q.buffers) ∙ written in
        record {
          index_small = repr.index_small;
          room_small = repr.room_small;
          spare_small = repr.spare_small;
          within = omega (arith, length-append {0} s.enqueued (items v));
          word = ground (arith, length-append s.enqueued (items v));
          room_slots =
              ap length slots'
              ∙ length-fill (slots (at index q.buffers)) (length s.enqueued) (items v)
              ∙ repr.room_slots;
          spare_slots = rw (at-put_other index b' q.buffers repr.index_small) repr.spare_slots;
          acked =
              at-put_self index (length s.enqueued + length (items v)) q.buffers_length
              ∙ sym (length-append s.enqueued (items v));
          held = rw slots' (
              Holds-append _ 0 (length s.enqueued) s.enqueued (items v) (omega arith)
                (Holds-fill_above _ (length s.enqueued) 0 s.enqueued (items v) (omega arith)
                  repr.held)
                (Holds-fill _ (length s.enqueued) (items v) (omega (arith, repr.room_slots))));
          clean = rw slots' (
              rw (length-append s.enqueued (items v), length-fill)
                (Free-fill (slots (at index q.buffers)) (length s.enqueued) (items v) _
                  repr.clean));
          capacity = repr.capacity;
          phase =
              InPhase-same laws N q _ (1 - index) s.phase refl
                (at-put_other index b' q.buffers repr.index_small)
                (at-put_other index _ q.buffers_length repr.index_small) repr.phase;
        }

    room_refines :
        length (items v) ≢ 0
        → s.is_shut ≡ false
        → length s.enqueued + length (items v) ≤ s.room
        → Refined (ok tt, record s { enqueued = s.enqueued ++ items v })
    unfolding try_enqueue
    room_refines some_left open_word fewer =
        let (b', inserted, written) =
          insert_into_lem (at index q.buffers) v (length s.enqueued)
            (omega (arith, repr.room_slots))
            (λ k low high. repr.clean k low (omega (arith, high, repr.room_slots, fewer))) in
        (
          committed reserved index b' (length s.enqueued + length (items v)),
          ground (
            arith,
            size-items v,
            open_word,
            reserve-room ins q index remaining fits v (omega (arith, size-items v))
                (rw open_word at repr.word) spurious (omega (arith, size-items v)),
            repr.word,
            commit-done reserved v index remaining (length s.enqueued) b' fits
                (omega (arith, repr.room_small, repr.within)) (omega (arith, repr.room_small))
                (omega (arith, repr.room_slots, repr.within)) repr.acked inserted,
          ),
          enqueued_Repr b' open_word fewer written,
        )

    -- With a buffer and values that keep their contracts, on a queue that stands for an abstract
    -- one, with a value of a size below `2 ^ 63`, `try_enqueue` runs to its end with the answer of
    -- the abstract queue, however often its compare-and-swap fails, and leaves a queue that stands
    -- for the abstract one after the operation.
    pub try_enqueue_refines : Refined (enqueue (items v) s)
    unfolding enqueue
    try_enqueue_refines = elim (Bool-cases (length (items v) == 0)) [
      | inl e ↦
          let answer : enqueue (items v) s ≡ (ok tt, s) = ground arith in
          rw answer (empty_refines (ground arith))
      | inr ne ↦ elim (Bool-cases s.is_shut) [
        | inl shut ↦
            let answer : enqueue (items v) s ≡ (err Refusal.is_closed, s) = ground arith in
            rw answer (closed_refines (ground arith) shut)
        | inr open_word ↦ elim (Bool-cases (ltb s.room (length s.enqueued + length (items v)))) [
          | inl more ↦
              let answer : enqueue (items v) s ≡ (err no_room, s) = ground arith in
              rw answer (no_room_refines (ground arith) open_word (ground arith))
          | inr fewer ↦
              let answer : enqueue (items v) s
                  ≡ (ok tt, record s { enqueued = s.enqueued ++ items v }) =
                ground arith in
              rw answer (room_refines (ground arith) open_word (ground arith))
        ]
      ]
    ]
