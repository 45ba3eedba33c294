-- ===== src/Queue/Control.antt =====
-- Constructors, accessors, `close` and `reopen` of src/queue.rs against the abstract queue.
use swap_buffer_queue.Prelude.{
  ℕ, ◌-◌, ◌≤◌, ◌<◌, ◌≡◌, refl, sym, ◌∙◌, none, some, [], length, arith, Bool, true, false, ◌==◌,
}
use swap_buffer_queue.Prelude.Slots.{Free}
use swap_buffer_queue.Notify.{Notify}
use swap_buffer_queue.Word.Enqueuing.{check_overflow}
use swap_buffer_queue.Word.Enqueuing.Laws as Enqueuing
use swap_buffer_queue.Word.Dequeuing.Laws as Words
use swap_buffer_queue.Buffer.{Buffer, BufferLaws, Resize, ResizeLaws}
use swap_buffer_queue.Two.{at}
use swap_buffer_queue.Queue.{Queue, build, new, with_capacity, len, is_empty, is_closed, reopen}
use swap_buffer_queue.Queue.Enqueue.{close}
use swap_buffer_queue.Queue.Spec.{idle, Spec}
use swap_buffer_queue.Queue.Repr.{max_capacity, Repr, InPhase-same}

-- An abstract queue with nothing in it.
abbrev pub fresh : {X : Type 0} → ℕ → Spec X
fresh n = record { enqueued = []; room = n; spare = n; is_shut = false; phase = idle }

check_overflow-large : (n : ℕ) → max_capacity ≤ n → check_overflow n ≡ false
unfolding check_overflow
check_overflow-large n large = ground arith

module _ {B S X : Type 0} {buf : Buffer B S} (laws : BufferLaws X buf) {N : Type 0} where
  open laws use {slots, capacity-slots}

  Repr-word :
      (q q' : Queue B N) (index : ℕ) (s : Spec X) (shut : Bool)
      → Repr laws N q index s
      → q'.buffers ≡ q.buffers
      → q'.buffers_length ≡ q.buffers_length
      → q'.dequeuing_length ≡ q.dequeuing_length
      → q'.capacity ≡ q.capacity
      → q'.enqueuing_capacity ≡ Enqueuing.word_of index (s.room - length s.enqueued) shut
      → Repr laws N q' index (record s { is_shut = shut })
  Repr-word q q' index s shut repr b l d c word = record {
    index_small = repr.index_small;
    room_small = repr.room_small;
    spare_small = repr.spare_small;
    within = repr.within;
    word = word;
    room_slots = rw b repr.room_slots;
    spare_slots = rw b repr.spare_slots;
    acked = rw l repr.acked;
    held = rw b repr.held;
    clean = rw b repr.clean;
    capacity = c ∙ repr.capacity;
    phase = InPhase-same laws N q q' (1 - index) s.phase d (rw b) (rw l) repr.phase;
  }

  module _ (q : Queue B N) (index : ℕ) (s : Spec X) (repr : Repr laws N q index s) where
    abbrev left : ℕ
    left = s.room - length s.enqueued

    fits : Enqueuing.Fits index left
    fits = omega (arith, repr.index_small, repr.room_small)

    -- On a queue that stands for an abstract one, `close` sets the flag and keeps every item, the room
    -- and the phase.
    pub close_refines :
        (notifier : Notify N) → Repr laws N (close notifier q) index (record s { is_shut = true })
    unfolding close
    close_refines notifier =
        Repr-word q _ index s true repr refl refl refl refl
          (rw (repr.word, Enqueuing.close-word_of index left s.is_shut fits))

    -- On a queue that stands for an abstract one, `reopen` clears the flag and keeps every item, the
    -- room and the phase.
    pub reopen_refines : Repr laws N (reopen q) index (record s { is_shut = false })
    unfolding reopen
    reopen_refines =
        Repr-word q _ index s false repr refl refl refl refl
          (rw (repr.word, Enqueuing.reopen-word_of index left s.is_shut fits))

    -- On a queue that stands for an abstract one, `len` is the number of items that are enqueued and
    -- not those taken out, `is_empty` tells if it is zero, `is_closed` if the queue is closed, and the
    -- capacity is the room of the buffer that is enqueued into.
    pub accessors_refine :
        (len q ≡ length s.enqueued)
        × (is_empty q ≡ (length s.enqueued == 0))
        × (is_closed q ≡ s.is_shut)
        × (q.capacity ≡ s.room)
    unfolding len is_empty is_closed
    accessors_refine = (
      ground (arith, Enqueuing.remaining_capacity-word_of index left s.is_shut fits, repr),
      ground (arith, Enqueuing.remaining_capacity-word_of index left s.is_shut fits, repr),
      ground (arith, Enqueuing.is_closed-word_of index left s.is_shut fits, repr),
      repr.capacity,
    )

  module _ (default_notify : N) where
    build_refines :
        (b : B) (n : ℕ)
        → Free (slots b) 0 (length (slots b))
        → length (slots b) ≡ n
        → n < max_capacity
        → (q : Queue B N) × (build buf default_notify (record { first = b; second = b }) n ≡ some q)
          × Repr laws N q 0 (fresh n)
    unfolding build at
    build_refines b n clean same small = (
      record {
        enqueuing_capacity = Enqueuing.word_of 0 n false;
        dequeuing_length = Words.word_of 1 0;
        buffers = record { first = b; second = b };
        buffers_length = record { first = 0; second = 0 };
        capacity = n;
        notify = default_notify;
      },
      ground (
        arith,
        Enqueuing.check_overflow-Fits 0 n (omega arith),
        Enqueuing.new-word_of 0 n (omega arith),
        Words.new-word_of 1 0 (omega arith) (omega arith),
      ),
      record {
        index_small = omega arith;
        room_small = small;
        spare_small = small;
        within = omega arith;
        word = omega arith;
        room_slots = same;
        spare_slots = same;
        acked = refl;
        held = tt;
        clean = clean;
        capacity = refl;
        phase = (refl, refl, clean);
      },
    )

    -- With buffers and a resizing that keep their contracts and a capacity below `2 ^ 62 - 1`,
    -- `with_capacity` builds a queue that is empty and open, both buffers of that capacity.
    pub with_capacity_refines :
        {resizable : Resize B}
        → ResizeLaws laws resizable
        → (n : ℕ) → n < max_capacity
        → (q : Queue B N) × (with_capacity buf default_notify resizable n ≡ some q)
          × Repr laws N q 0 (fresh n)
    unfolding with_capacity
    with_capacity_refines {resizable = resizable} resizes n small =
        let room : length (slots (resizable.resize n buf.default)) ≡ n =
          resizes.length-resize buf.default n in
        build_refines _ n (rw room (resizes.clean-resize buf.default n laws.clean-default)) room
          small

    -- With a capacity of at least `2 ^ 62 - 1`, `with_capacity` fails its assertion.
    pub with_capacity-large :
        (resizable : Resize B) (n : ℕ)
        → max_capacity ≤ n
        → with_capacity buf default_notify resizable n ≡ none
    unfolding with_capacity build
    with_capacity-large resizable n large = ground (arith, check_overflow-large n large)

    -- With buffers that keep their contract and a default capacity below `2 ^ 62 - 1`, `new` builds a
    -- queue that is empty and open, both buffers of the default capacity.
    pub new_refines :
        buf.capacity buf.default < max_capacity
        → (q : Queue B N) × (new buf default_notify ≡ some q)
          × Repr laws N q 0 (fresh (buf.capacity buf.default))
    unfolding new
    new_refines small =
        build_refines buf.default _ laws.clean-default (sym (capacity-slots buf.default)) small
