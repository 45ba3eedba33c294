-- ===== src/Concurrent/Inv/Release.antt =====
-- The steps of the thread that holds a slice keep the invariant: removing items, and releasing.
use swap_buffer_queue.Prelude.{
  ℕ, ◌+◌, ◌-◌, ◌≤◌, ◌<◌, ◌≡◌, ◌≢◌, sym, ap, ◌∙◌, ◌⊎◌, inl, inr, Bool, true, false, Option, none,
  some, arith,
}
use swap_buffer_queue.Queue.Repr.{max_capacity}
use swap_buffer_queue.Threads.{sole_mine, update, update_self, le-sum}
use swap_buffer_queue.Concurrent.{Shared, Pc, mark}
use swap_buffer_queue.Concurrent.Inv.{
  Slot, slot, slot_weight, weight, unwritten, in_flight, owns, Within, Covered, Ghost, Owned,
  Memory, Inv,
}
use swap_buffer_queue.Concurrent.Inv.Quiet.{flight_same_at, quiet-Memory}
use swap_buffer_queue.Concurrent.Inv.Lock.{mine-Owned}

-- The cells of a buffer that are past those that are cleared, or in another buffer.
mark_false-Covered :
    (capacity : ℕ → ℕ) (cells : ℕ → ℕ → Bool) (pc : ℕ → Pc) (buffer start size b lo hi : ℕ)
    → (buffer ≢ b) ⊎ (start + size ≤ lo)
    → Covered capacity cells pc b lo hi
    → Covered capacity (mark cells buffer start size false) pc b lo hi
mark_false-Covered capacity cells pc buffer start size b lo hi clear old k above below =
    elim (old k above below) [
      | inl w ↦ elim clear [
        | inl other ↦ inl (ground (arith, w, other))
        | inr past ↦ inl (ground (arith, w, past, above))
      ]
      | inr writes ↦ inr writes
    ]

-- Nothing is in flight in a buffer, so no reserved range is in it.
empty-Within :
    (n j b : ℕ) (lengths lengths' flight : ℕ → ℕ) (x : Option Slot)
    → (j < n → slot_weight b x ≤ flight b)
    → flight b ≡ 0
    → ((c : ℕ) → c ≢ b → lengths' c ≡ lengths c)
    → Within n j (λ c. lengths c + flight c) x
    → Within n j (λ c. lengths' c + flight c) x
empty-Within n j b lengths lengths' flight none weigh settled others w = tt
empty-Within n j b lengths lengths' flight (some x) weigh settled others w =
    let away : x.buffer ≢ b = ground (arith, weigh w.0, settled, w.1) in
    (w.0, w.1, w.2, omega (arith, w.3, others x.buffer away))

module _ {capacity : ℕ → ℕ} (small : (b : ℕ) → capacity b < max_capacity) {n : ℕ} {m : Shared}
    {pc : ℕ → Pc} {g : Ghost} (inv : Inv capacity n m pc g) (i : ℕ) (lt : i < n) where
  open inv use {memory, sole}

  abbrev flight : ℕ → ℕ
  flight = in_flight capacity n pc

  -- The items removed are no longer initialised, and no longer wait.
  pub removed-Memory :
      (k : ℕ)
      → k ≤ g.waiting
      → flight (1 - g.index) ≡ 0
      → Memory capacity n
          (record m { initialised = mark m.initialised (1 - g.index) g.low k false })
          pc
          flight
          (record g { low = g.low + k; waiting = g.waiting - k; owner = some i })
  removed-Memory k enough settled = record {
    index_small = memory.index_small;
    left = memory.left;
    word = memory.word;
    reserved = memory.reserved;
    expected = omega (arith, memory.expected, enough);
    bounded = omega (arith, memory.bounded, enough);
    settled = λ h. settled;
    within = memory.within;
    apart = memory.apart;
    filled =
        mark_false-Covered capacity m.initialised pc (1 - g.index) g.low k g.index 0
          (m.buffers_length g.index + flight g.index) (inl (omega (arith, memory.index_small)))
          memory.filled;
    ready =
        mark_false-Covered capacity m.initialised pc (1 - g.index) g.low k (1 - g.index) (g.low + k)
          (g.low + k + (g.waiting - k)) (inr (omega arith))
          (λ c above below. memory.ready c (omega (arith, above)) (omega (arith, below, enough)));
  }

  -- The length of the buffer is stored once nothing waits in it.
  pub stored-Memory :
      g.waiting ≡ 0
      → flight (1 - g.index) ≡ 0
      → Memory capacity n
          (record m { buffers_length = update m.buffers_length (1 - g.index) 0 })
          pc
          flight
          (record g { low = 0; waiting = 0; owner = some i })
  stored-Memory none_left settled = record {
    index_small = memory.index_small;
    left = memory.left;
    word = memory.word;
    reserved = ground (arith, memory.reserved, memory.index_small);
    expected = ground (arith, settled);
    bounded = omega arith;
    settled = λ h. settled;
    within = λ j.
        empty-Within n j (1 - g.index) m.buffers_length (update m.buffers_length (1 - g.index) 0)
          flight (slot capacity (pc j)) (le-sum (λ a. weight capacity (1 - g.index) (pc a)) n j)
          settled (λ c away. ground (arith, away)) (memory.within j);
    apart = memory.apart;
    filled = λ k above below. memory.filled k above (ground (arith, below, memory.index_small));
    ready = λ k above below. absurd (omega (arith, below));
  }

  module _ (p p' : Pc) (at : pc i ≡ p) (held : owns p ≡ true) (none_before : slot capacity p ≡ none)
      (unwritten_before : unwritten capacity p ≡ none) (none_after : slot capacity p' ≡ none) where
    -- The thread goes on with a buffer that the others do not use.
    pub own-Inv :
        (m' : Shared) (low waiting : ℕ)
        → m'.dequeuing_length ≡ m.dequeuing_length
        → Memory capacity n m' pc flight (record g { low = low; waiting = waiting; owner = some i })
        → Owned (1 - g.index) (flight (1 - g.index)) low waiting p'
        → Inv capacity n m'
            (update pc i p')
            (record g { low = low; waiting = waiting; owner = some i })
    own-Inv m' low waiting word memory' known' =
        let (mine, locked_word, known) = mine-Owned small inv i p at held in
        let same : slot capacity (pc i) ≡ slot capacity p' =
          ap (slot capacity) at ∙ none_before ∙ sym none_after in
        record {
          memory =
              quiet-Memory capacity n pc i p'
                {g = record g { low = low; waiting = waiting; owner = some i }} lt same
                (ap (unwritten capacity) at ∙ unwritten_before) memory';
          locked = (
            word ∙ locked_word,
            rw (flight_same_at capacity n pc i p' lt same (1 - g.index), update_self pc i p')
                known',
          );
          sole = sole_mine owns pc i p' g.owner sole (inr mine);
        }
