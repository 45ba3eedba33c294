-- ===== src/Concurrent/Inv/Swap.antt =====
-- The swap of the buffers keeps the invariant: the words of the ghost state change places.
use swap_buffer_queue.Prelude.{
  ℕ, ◌+◌, ◌-◌, ◌<◌, ◌≡◌, refl, sym, ap, subst, ◌∙◌, inr, false, none, some, arith,
}
use swap_buffer_queue.Word.Enqueuing as Enqueuing
use swap_buffer_queue.Word.Enqueuing.Laws as Enqueuing_laws
use swap_buffer_queue.Queue.Repr.{max_capacity}
use swap_buffer_queue.Threads.{sole_mine, update, update_self}
use swap_buffer_queue.Concurrent.{Shared, Pc, swapping, reserved_from}
use swap_buffer_queue.Concurrent.Inv.{owns, slot, unwritten, in_flight, Ghost, Owned, Memory, Inv}
use swap_buffer_queue.Concurrent.Inv.Quiet.{flight_same_at, quiet-Memory}
use swap_buffer_queue.Concurrent.Inv.Reserve.{at_index, from_used}
use swap_buffer_queue.Concurrent.Inv.Lock.{mine-Owned}

module _ {capacity : ℕ → ℕ} (small : (b : ℕ) → capacity b < max_capacity) {n : ℕ} {m : Shared}
    {pc : ℕ → Pc} {g : Ghost} (inv : Inv capacity n m pc g) (i : ℕ) where
  open inv use {memory, sole}

  abbrev flight : ℕ → ℕ
  flight = in_flight capacity n pc

  other_twice : 1 - (1 - g.index) ≡ g.index
  other_twice = omega (arith, memory.index_small)

  abbrev pub flipped : Ghost
  flipped = record {
    index = 1 - g.index;
    remaining = capacity (1 - g.index);
    shut = g.shut;
    low = 0;
    waiting = m.buffers_length g.index + flight g.index;
    owner = some i;
  }

  swapped_word :
      (next_enq : ℕ)
      → Enqueuing.new (1 - g.index) (capacity (1 - g.index)) ≡ some next_enq
      → Enqueuing.with_closed next_enq m.enqueuing_capacity
        ≡ Enqueuing_laws.word_of (1 - g.index) (capacity (1 - g.index)) g.shut
  swapped_word next_enq made =
      let fits : Enqueuing_laws.Fits (1 - g.index) (capacity (1 - g.index)) =
        omega (arith, memory.index_small, small (1 - g.index)) in
      let fits' : Enqueuing_laws.Fits g.index g.remaining =
        omega (arith, memory.index_small, memory.left, small g.index) in
      let word : next_enq ≡ Enqueuing_laws.word_of (1 - g.index) (capacity (1 - g.index)) false =
        cc (made, Enqueuing_laws.new-word_of (1 - g.index) (capacity (1 - g.index)) fits) in
      ap (λ w. Enqueuing.with_closed w m.enqueuing_capacity) word
      ∙ ap
          (Enqueuing.with_closed
            (Enqueuing_laws.word_of (1 - g.index) (capacity (1 - g.index)) false))
          memory.word
      ∙ Enqueuing_laws.with_closed-word_of (1 - g.index) (capacity (1 - g.index)) g.shut fits
          g.index g.remaining fits'

  flipped-Memory :
      (w : ℕ)
      → w ≡ Enqueuing_laws.word_of (1 - g.index) (capacity (1 - g.index)) g.shut
      → g.waiting ≡ 0
      → g.low ≡ 0
      → Memory capacity n (record m { enqueuing_capacity = w }) pc flight flipped
  flipped-Memory w word' none_left at_start = record {
    index_small = omega (arith, memory.index_small);
    left = omega arith;
    word = word';
    reserved = omega (arith, memory.expected, none_left, at_start);
    expected = rw other_twice (omega arith);
    bounded = rw other_twice (omega (arith, memory.reserved));
    settled = λ h. absurd (omega (arith, h));
    within = memory.within;
    apart = memory.apart;
    filled = λ k above below. absurd (omega (arith, memory.expected, none_left, at_start, below));
    ready = rw other_twice (λ k above below. memory.filled k above (omega (arith, below)));
  }

  -- The thread that swaps goes on with the whole reserved part of the buffer that it took, which may
  -- be empty.
  pub swap-Inv :
      (lt : i < n) (next next_enq : ℕ) (p' : Pc)
      → pc i ≡ swapping next m.enqueuing_capacity
      → Enqueuing.new next (capacity next) ≡ some next_enq
      → slot capacity p' ≡ none
      → Owned g.index (flight g.index) 0 (m.buffers_length g.index + flight g.index) p'
      → Inv capacity n
          (record m { enqueuing_capacity = Enqueuing.with_closed next_enq m.enqueuing_capacity })
          (update pc i p')
          flipped
  swap-Inv lt next next_enq p' at made none_after known' =
      let (mine, locked_word, known) =
        mine-Owned small inv i (swapping next m.enqueuing_capacity) at refl in
      let made' : Enqueuing.new (1 - g.index) (capacity (1 - g.index)) ≡ some next_enq =
        subst (λ x. Enqueuing.new x (capacity x) ≡ some next_enq) known.0 made in
      let w : ℕ = Enqueuing.with_closed next_enq m.enqueuing_capacity in
      let same : slot capacity (pc i) ≡ slot capacity p' = ap (slot capacity) at ∙ sym none_after in
      record {
        memory =
            quiet-Memory capacity n pc i p' {m = record m { enqueuing_capacity = w }} {g = flipped}
              lt same (ap (unwritten capacity) at)
              (flipped-Memory w (swapped_word next_enq made') known.1 known.2);
        locked = (
          locked_word,
          rw (other_twice, flight_same_at capacity n pc i p' lt same g.index, update_self pc i p')
              known',
        );
        sole = sole_mine owns pc i p' g.owner sole (inr mine);
      }

  -- What the thread knows of the word that it swaps out.
  pub swapped_from :
      (Enqueuing.buffer_index m.enqueuing_capacity ≡ g.index)
      × (reserved_from capacity m.enqueuing_capacity ≡ m.buffers_length g.index + flight g.index)
  swapped_from = (at_index small inv, from_used small inv)
