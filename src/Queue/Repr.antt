-- ===== src/Queue/Repr.antt =====
-- Which queue stands for which abstract state: the two words, the two buffers and their lengths are
-- determined by it, up to the index of the buffer that is enqueued into.
use swap_buffer_queue.Prelude.{ℕ, ◌+◌, ◌-◌, ◌^◌, ◌≤◌, ◌<◌, ◌≡◌, refl, ◌∙◌, List, length}
use swap_buffer_queue.Prelude.Slots.{Holds, Free}
use swap_buffer_queue.Word.{dequeuing_locked}
use swap_buffer_queue.Word.Enqueuing.Laws as Enqueuing
use swap_buffer_queue.Word.Dequeuing.Laws as Dequeuing
use swap_buffer_queue.Buffer.{Buffer, BufferLaws}
use swap_buffer_queue.Queue.{Queue}
use swap_buffer_queue.Two.{at}
use swap_buffer_queue.Queue.Spec.{Phase, idle, requeued, taken, Spec}

-- The limit that `check_overflow` sets.
abbrev pub max_capacity : ℕ
max_capacity = 2 ^ 62 - 1

module _ {B S X : Type 0} {buf : Buffer B S} (laws : BufferLaws X buf) (N : Type 0) where
  open laws use {slots}

  -- Items that stand in a buffer up to its acknowledged length, and nothing else.
  pub record Waits (q : Queue B N) (index start : ℕ) (xs : List X) : Type 0 where
    pub acked : at index q.buffers_length ≡ start + length xs
    pub fits : start + length xs ≤ length (slots (at index q.buffers))
    pub held : Holds (slots (at index q.buffers)) start xs
    pub clean_below : Free (slots (at index q.buffers)) 0 start
    pub clean_above :
        Free (slots (at index q.buffers)) (start + length xs) (length (slots (at index q.buffers)))

  pub Waits-same :
      (q q' : Queue B N) (index start : ℕ) (xs : List X)
      → at index q'.buffers ≡ at index q.buffers
      → at index q'.buffers_length ≡ at index q.buffers_length
      → Waits q index start xs
      → Waits q' index start xs
  Waits-same q q' index start xs b l h = record {
    acked = l ∙ h.acked;
    fits = rw b h.fits;
    held = rw b h.held;
    clean_below = rw b h.clean_below;
    clean_above = rw b h.clean_above;
  }

  -- The dequeuing side, whose buffer has this index.
  abbrev pub InPhase : Queue B N → ℕ → Phase X → Type 0
  InPhase q index idle =
      (q.dequeuing_length ≡ Dequeuing.word_of index 0)
      × (at index q.buffers_length ≡ 0)
      × Free (slots (at index q.buffers)) 0 (length (slots (at index q.buffers)))
  InPhase q index (requeued start xs) =
      (q.dequeuing_length ≡ Dequeuing.word_of index (length xs))
      × (0 < length xs)
      × Waits q index start xs
  InPhase q index (taken start xs) =
      (q.dequeuing_length ≡ dequeuing_locked) × Waits q index start xs

  pub record Repr (q : Queue B N) (index : ℕ) (s : Spec X) : Type 0 where
    pub index_small : index < 2
    pub room_small : s.room < max_capacity
    pub spare_small : s.spare < max_capacity
    pub within : length s.enqueued ≤ s.room
    pub word : q.enqueuing_capacity ≡ Enqueuing.word_of index (s.room - length s.enqueued) s.is_shut
    pub room_slots : length (slots (at index q.buffers)) ≡ s.room
    pub spare_slots : length (slots (at (1 - index) q.buffers)) ≡ s.spare
    pub acked : at index q.buffers_length ≡ length s.enqueued
    pub held : Holds (slots (at index q.buffers)) 0 s.enqueued
    pub clean :
        Free (slots (at index q.buffers)) (length s.enqueued) (length (slots (at index q.buffers)))
    pub capacity : q.capacity ≡ s.room
    pub phase : InPhase q (1 - index) s.phase

  -- The dequeuing side looks at its own buffer, its length, and the dequeuing word.
  pub InPhase-same :
      (q q' : Queue B N) (index : ℕ) (phase : Phase X)
      → q'.dequeuing_length ≡ q.dequeuing_length
      → at index q'.buffers ≡ at index q.buffers
      → at index q'.buffers_length ≡ at index q.buffers_length
      → InPhase q index phase
      → InPhase q' index phase
  InPhase-same q q' index idle word b l h = (word ∙ h.0, l ∙ h.1, rw b h.2)
  InPhase-same q q' index (requeued start xs) word b l h =
      (word ∙ h.0, h.1, Waits-same q q' index start xs b l h.2)
  InPhase-same q q' index (taken start xs) word b l h =
      (word ∙ h.0, Waits-same q q' index start xs b l h.1)

  -- A change on the dequeuing side, with the phase that it comes to.
  pub Repr-side :
      {q q' : Queue B N} {index : ℕ} {s : Spec X} (phase : Phase X)
      → Repr q index s
      → q'.enqueuing_capacity ≡ q.enqueuing_capacity
      → q'.capacity ≡ q.capacity
      → at index q'.buffers ≡ at index q.buffers
      → at index q'.buffers_length ≡ at index q.buffers_length
      → length (slots (at (1 - index) q'.buffers)) ≡ s.spare
      → InPhase q' (1 - index) phase
      → Repr q' index (record s { phase = phase })
  Repr-side phase repr word capacity buffer len spare in_phase = record {
    index_small = repr.index_small;
    room_small = repr.room_small;
    spare_small = repr.spare_small;
    within = repr.within;
    word = word ∙ repr.word;
    room_slots = rw buffer repr.room_slots;
    spare_slots = spare;
    acked = len ∙ repr.acked;
    held = rw buffer repr.held;
    clean = rw buffer repr.clean;
    capacity = capacity ∙ repr.capacity;
    phase = in_phase;
  }

  -- A new dequeuing word alone.
  pub Repr-phase :
      {q : Queue B N} {index : ℕ} {s : Spec X} (word : ℕ) (phase : Phase X)
      → Repr q index s
      → InPhase (record q { dequeuing_length = word }) (1 - index) phase
      → Repr (record q { dequeuing_length = word }) index (record s { phase = phase })
  Repr-phase word phase repr in_phase =
      Repr-side phase repr refl refl refl refl repr.spare_slots in_phase
