-- ===== src/Concurrent/Safety.antt =====
-- What the invariant says of the threads, in any order of their steps.
use swap_buffer_queue.Prelude.{
  ℕ, ◌+◌, ◌-◌, ◌^◌, ◌≤◌, ◌<◌, ◌≡◌, ◌≢◌, refl, ap, subst, ◌∙◌, ◌⊎◌, inl, inr, true, some, arith,
  ◌==◌, Bool-cases,
}
use swap_buffer_queue.Word.Enqueuing as Enqueuing
use swap_buffer_queue.Queue.Repr.{max_capacity}
use swap_buffer_queue.Threads.{sum-none, le-sum}
use swap_buffer_queue.Concurrent.{
  Pc, inserting, inserted, panicked, spinning, holding, System, Reach, reserved_from,
}
use swap_buffer_queue.Concurrent.Inv.{
  Slot, slot_of, slot, slot_weight, weight, unwritten, in_flight, owns, Within, Apart, Writes,
  Ghost, Owned, Inv,
}
use swap_buffer_queue.Concurrent.Inv.Lock.{mine-Owned}
use swap_buffer_queue.Concurrent.Inv.Steps.{Reach-Inv}

-- A thread that has nothing in flight in a buffer.
no_weight :
    (capacity : ℕ → ℕ) (b : ℕ) (p : Pc)
    → ((size enq : ℕ)
        → slot capacity p ≡ some (slot_of capacity size enq)
        → Enqueuing.buffer_index enq ≢ b)
    → weight capacity b p ≡ 0
no_weight capacity b (inserting size enq) away = ground (arith, away size enq refl)
no_weight capacity b (inserted size enq) away = ground (arith, away size enq refl)
no_weight capacity b (panicked size enq) away = ground (arith, away size enq refl)
no_weight capacity b _ away = refl

-- A thread that writes a cell has a range with that cell in its buffer.
writer-slot :
    (capacity : ℕ → ℕ) (p : Pc) (b k : ℕ)
    → Writes (unwritten capacity p) b k
    → (x : Slot) × (slot capacity p ≡ some x) × (x.buffer ≡ b)
writer-slot capacity (inserting size enq) b k writes = (slot_of capacity size enq, refl, writes.0)
writer-slot capacity (panicked size enq) b k writes = (slot_of capacity size enq, refl, writes.0)
writer-slot capacity _ b k writes = absurd writes

module _ {capacity sizes : ℕ → ℕ} (small : (b : ℕ) → capacity b < max_capacity)
    (sizes_small : (v : ℕ) → sizes v < 2 ^ 63) {n : ℕ} {s : System}
    (reach : Reach capacity sizes n s) where
  -- The space between the start and the end of what a thread writes lies within the buffer.
  used-capacity :
      (g : Ghost)
      → Inv capacity n s.mem s.pc g
      → (b : ℕ) → b < 2
      → s.mem.buffers_length b + in_flight capacity n s.pc b ≤ capacity b
  used-capacity g inv b b_small = elim (Bool-cases (b == g.index)) [
    | inl e ↦
        let here : b ≡ g.index = ground (arith, e) in rw here (omega (arith, inv.memory.reserved))
    | inr ne ↦
        let there : b ≡ 1 - g.index = ground (arith, ne, b_small, inv.memory.index_small) in
        rw there (omega (arith, inv.memory.expected, inv.memory.bounded))
  ]

  -- With buffers of capacities below `2 ^ 62 - 1` and values of sizes below `2 ^ 63`, in a state that threads can reach from a new queue
  -- in any order of their steps, two threads that are about to write values into the same buffer
  -- write ranges of cells that do not overlap, and that end within the buffer.
  pub insertions_apart :
      (i j size enq size' enq' : ℕ)
      → i ≢ j
      → s.pc i ≡ inserting size enq
      → s.pc j ≡ inserting size' enq'
      → Enqueuing.buffer_index enq ≡ Enqueuing.buffer_index enq'
      → ((reserved_from capacity enq + size ≤ reserved_from capacity enq')
          ⊎ (reserved_from capacity enq' + size' ≤ reserved_from capacity enq))
        × (reserved_from capacity enq + size ≤ capacity (Enqueuing.buffer_index enq))
  insertions_apart i j size enq size' enq' other at at' same =
      let (g, inv) = Reach-Inv small sizes_small reach in
      let apart : Apart (some (slot_of capacity size enq)) (some (slot_of capacity size' enq')) =
        subst (λ x. Apart x (some (slot_of capacity size' enq'))) (ap (slot capacity) at)
          (subst (Apart (slot capacity (s.pc i))) (ap (slot capacity) at')
            (inv.memory.apart i j other)) in
      let within : Within n i (λ b. s.mem.buffers_length b + in_flight capacity n s.pc b)
          (some (slot_of capacity size enq)) =
        subst (Within n i (λ b. s.mem.buffers_length b + in_flight capacity n s.pc b))
          (ap (slot capacity) at) (inv.memory.within i) in
      (
        apart same,
        omega (arith, within.3, used-capacity g inv (Enqueuing.buffer_index enq) within.2),
      )

  -- While a thread holds a slice, no other is writing or acknowledging a range of the same buffer.
  no_slot :
      (g : Ghost)
      → Inv capacity n s.mem s.pc g
      → (j b : ℕ) (x : Slot) → slot capacity (s.pc j) ≡ some x
      → in_flight capacity n s.pc b ≡ 0
      → x.buffer ≢ b
  no_slot g inv j b x at none_out here =
      let within : Within n j (λ c. s.mem.buffers_length c + in_flight capacity n s.pc c) (some x) =
        subst (Within n j (λ c. s.mem.buffers_length c + in_flight capacity n s.pc c)) at
          (inv.memory.within j) in
      let weigh : slot_weight b (some x) ≤ in_flight capacity n s.pc b =
        subst (λ y. slot_weight b y ≤ in_flight capacity n s.pc b) at
          (le-sum (λ a. weight capacity b (s.pc a)) n j within.0) in
      ground (arith, weigh, within.1, here, none_out)

  holding-Owned :
      (g : Ghost)
      → Inv capacity n s.mem s.pc g
      → (i index from to : ℕ) → s.pc i ≡ holding index from to
      → Owned
          (1 - g.index)
          (in_flight capacity n s.pc (1 - g.index))
          g.low
          g.waiting
          (holding index from to)
  holding-Owned g inv i index from to at =
      (mine-Owned small inv i (holding index from to) at refl).2

  -- With buffers of capacities below `2 ^ 62 - 1` and values of sizes below `2 ^ 63`, in a state that threads can reach from a new queue
  -- in any order of their steps, no thread is writing values into a buffer, or has yet to acknowledge
  -- them, while another holds a slice of that buffer.
  pub slice_alone :
      (i j index from to size enq : ℕ)
      → s.pc i ≡ holding index from to
      → (s.pc j ≡ inserting size enq) ⊎ (s.pc j ≡ inserted size enq)
      → Enqueuing.buffer_index enq ≢ index
  slice_alone i j index from to size enq at at' here =
      let (g, inv) = Reach-Inv small sizes_small reach in
      let known : Owned (1 - g.index) (in_flight capacity n s.pc (1 - g.index)) g.low g.waiting
          (holding index from to) =
        holding-Owned g inv i index from to at in
      let slot_at : slot capacity (s.pc j) ≡ some (slot_of capacity size enq) = elim at' [
        | inl e ↦ ap (slot capacity) e
        | inr e ↦ ap (slot capacity) e
      ] in
      no_slot g inv j (1 - g.index) (slot_of capacity size enq) slot_at known.3 (here ∙ known.0)

  -- With buffers of capacities below `2 ^ 62 - 1` and values of sizes below `2 ^ 63`, in a state that threads can reach from a new queue
  -- in any order of their steps, each cell of a slice that a thread holds is initialised, and lies
  -- within its buffer.
  pub slice_initialised :
      (i index from to k : ℕ)
      → s.pc i ≡ holding index from to
      → from ≤ k
      → k < to
      → (s.mem.initialised index k ≡ true) × (k < capacity index)
  slice_initialised i index from to k at above below =
      let (g, inv) = Reach-Inv small sizes_small reach in
      let known : Owned (1 - g.index) (in_flight capacity n s.pc (1 - g.index)) g.low g.waiting
          (holding index from to) =
        holding-Owned g inv i index from to at in
      (
        elim (inv.memory.ready k (omega (arith, above, known.1)) (omega (arith, below, known.2))) [
          | inl w ↦ rw known.0 w
          | inr (j, writes) ↦
              let (x, slot_at, here) = writer-slot capacity (s.pc j) (1 - g.index) k writes in
              absurd (no_slot g inv j (1 - g.index) x slot_at known.3 here)
        ],
        rw known.0 (omega (arith, known.2, inv.memory.bounded, below)),
      )

  -- With buffers of capacities below `2 ^ 62 - 1` and values of sizes below `2 ^ 63`, in a state that threads can reach from a new queue
  -- in any order of their steps, at most one thread is between the lock of the dequeuing side and its
  -- release.
  pub one_consumer : (i j : ℕ) → owns (s.pc i) ≡ true → owns (s.pc j) ≡ true → i ≡ j
  one_consumer i j held held' =
      let (g, inv) = Reach-Inv small sizes_small reach in cc (inv.sole i held, inv.sole j held')

  -- With buffers of capacities below `2 ^ 62 - 1` and values of sizes below `2 ^ 63`, in a state that threads can reach from a new queue
  -- in any order of their steps, a thread that spins for the items of a buffer finds the length that
  -- it waits for if no thread has reserved a range of that buffer and not acknowledged it.
  pub spin_ends :
      (i index len : ℕ)
      → s.pc i ≡ spinning index len
      → ((j size enq : ℕ)
          → slot capacity (s.pc j) ≡ some (slot_of capacity size enq)
          → Enqueuing.buffer_index enq ≢ index)
      → len ≤ s.mem.buffers_length index
  spin_ends i index len at nobody =
      let (g, inv) = Reach-Inv small sizes_small reach in
      let known : Owned (1 - g.index) (in_flight capacity n s.pc (1 - g.index)) g.low g.waiting
          (spinning index len) =
        (mine-Owned small inv i (spinning index len) at refl).2 in
      let none_out : in_flight capacity n s.pc index ≡ 0 =
        sum-none (λ j. weight capacity index (s.pc j))
          (λ j. no_weight capacity index (s.pc j) (nobody j)) n in
      rw known.0 (
        omega (
          arith,
          inv.memory.expected,
          known.1,
          subst (λ b. in_flight capacity n s.pc b ≡ 0) known.0 none_out,
        ))
