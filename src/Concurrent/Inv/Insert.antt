-- ===== src/Concurrent/Inv/Insert.antt =====
-- Writing a reserved range, and acknowledging it, keep the invariant.
use swap_buffer_queue.Prelude.{
  ℕ, ◌+◌, ◌-◌, ◌≤◌, ◌<◌, ◌≡◌, refl, sym, ap, subst, ◌∙◌, inl, inr, Bool, true, false, Option, none,
  some, arith, ◌==◌, if◌then◌else◌, Bool-cases,
}
use swap_buffer_queue.Word.{add_usize}
use swap_buffer_queue.Word.Enqueuing as Enqueuing
use swap_buffer_queue.Queue.Repr.{max_capacity}
use swap_buffer_queue.Threads.{update, each-update, pairs-update}
use swap_buffer_queue.Concurrent.{
  Shared, Pc, idle, inserting, inserted, panicked, mark, reserved_from,
}
use swap_buffer_queue.Concurrent.Inv.{
  Slot, slot_of, slot, unwritten, weight, in_flight, owns, Within, Apart, Writes, Covered, Ghost,
  Owned, Locked, Fields, Inv,
}
use swap_buffer_queue.Concurrent.Inv.Quiet.{
  flight-update, flight_same, quiet-Within, quiet-Apart, quiet-Covered, quiet-Locked,
}
use swap_buffer_queue.Concurrent.Inv.Enqueue.{sole_other}
use swap_buffer_queue.Concurrent.Inv.Reserve.{Within-grow}

-- The cells of a range, once written, and those of the others are as they were.
insert-Covered :
    (capacity : ℕ → ℕ) (cells : ℕ → ℕ → Bool) (pc : ℕ → Pc) (i size enq b lo hi : ℕ)
    → pc i ≡ inserting size enq
    → Covered capacity cells pc b lo hi
    → Covered capacity
        (mark cells (Enqueuing.buffer_index enq) (reserved_from capacity enq) size true)
        (update pc i (inserted size enq))
        b
        lo
        hi
insert-Covered capacity cells pc i size enq b lo hi at old k above below =
    elim (old k above below) [
      | inl w ↦ inl (ground (arith, w))
      | inr (j, writes) ↦ elim (Bool-cases (i == j)) [
        | inl e ↦
            let here : j ≡ i = ground (arith, e) in
            let mine : Writes (some (slot_of capacity size enq)) b k =
              subst (λ x. Writes x b k)
                (ap (λ a. unwritten capacity (pc a)) here ∙ ap (unwritten capacity) at) writes in
            inl (ground (arith, mine.0, mine.1, mine.2))
        | inr ne ↦ inr (j, rw ne writes)
      ]
    ]

-- More cells are initialised, and the range of the thread stays reserved.
panic-Covered :
    (capacity : ℕ → ℕ) (cells : ℕ → ℕ → Bool) (pc : ℕ → Pc) (i size enq written b lo hi : ℕ)
    → pc i ≡ inserting size enq
    → Covered capacity cells pc b lo hi
    → Covered capacity
        (mark cells (Enqueuing.buffer_index enq) (reserved_from capacity enq) written true)
        (update pc i (panicked size enq))
        b
        lo
        hi
panic-Covered capacity cells pc i size enq written b lo hi at old k above below =
    elim (old k above below) [
      | inl w ↦ inl (ground (arith, w))
      | inr (j, writes) ↦ elim (Bool-cases (i == j)) [
        | inl e ↦
            let here : j ≡ i = ground (arith, e) in
            let mine : Writes (some (slot_of capacity size enq)) b k =
              subst (λ x. Writes x b k)
                (ap (λ a. unwritten capacity (pc a)) here ∙ ap (unwritten capacity) at) writes in
            inr (j, rw e mine)
        | inr ne ↦ inr (j, rw ne writes)
      ]
    ]

-- Less in flight leaves what the owner knows.
less-Owned :
    (other low waiting : ℕ) {flight flight' : ℕ} (p : Pc)
    → flight' ≤ flight
    → Owned other flight low waiting p
    → Owned other flight' low waiting p
less-Owned other low waiting (Pc.dequeuing _) le o = o
less-Owned other low waiting (Pc.looking _ _) le o = o
less-Owned other low waiting (Pc.swapping _ _) le o = o
less-Owned other low waiting (Pc.spinning _ _) le o = o
less-Owned other low waiting (Pc.holding _ _ _) le o = (o.0, o.1, o.2, omega (arith, le, o.3))
less-Owned other low waiting (Pc.cleared _) le o = (o.0, o.1, omega (arith, le, o.2))
less-Owned other low waiting (Pc.emptied _) le o = o
less-Owned other low waiting _ le o = absurd o

pub less-Locked :
    (other low waiting word : ℕ) {flight flight' : ℕ} (pc : ℕ → Pc) (owner : Option ℕ)
    → flight' ≤ flight
    → Locked other flight low waiting word pc owner
    → Locked other flight' low waiting word pc owner
less-Locked other low waiting word pc none le locked = locked
less-Locked other low waiting word pc (some o) le locked =
    (locked.0, less-Owned other low waiting (pc o) le locked.1)

Apart-none : (x : Option Slot) → Apart x none
Apart-none none = tt
Apart-none (some x) = tt

module _ {capacity : ℕ → ℕ} (small : (b : ℕ) → capacity b < max_capacity) {n : ℕ} {m : Shared}
    {pc : ℕ → Pc} {g : Ghost} (inv : Inv capacity n m pc g) (i : ℕ) (lt : i < n)
    (size enq : ℕ) where
  open inv use {memory, locked, sole}
  open memory use {
    index_small, left, word, reserved, expected, bounded, settled, within, apart, filled, ready,
  }

  abbrev flight : ℕ → ℕ
  flight = in_flight capacity n pc

  -- The thread goes on with the same range, and with cells that still cover what is reserved.
  written-Inv :
      (p' : Pc) (cells : ℕ → ℕ → Bool)
      → pc i ≡ inserting size enq
      → slot capacity p' ≡ some (slot_of capacity size enq)
      → owns p' ≡ false
      → ((b lo hi : ℕ)
          → Covered capacity m.initialised pc b lo hi
          → Covered capacity cells (update pc i p') b lo hi)
      → Inv capacity n (record m { initialised = cells }) (update pc i p') g
  written-Inv p' cells at slot_after free_after covers =
      let same : slot capacity (pc i) ≡ slot capacity p' = ap (slot capacity) at ∙ sym slot_after in
      let free : owns (pc i) ≡ false = ap owns at in
      subst (λ f. Fields capacity n (record m { initialised = cells }) (update pc i p') f g)
        (sym (flight_same capacity n pc i p' lt same))
        (record {
          memory = record {
            index_small = index_small;
            left = left;
            word = word;
            reserved = reserved;
            expected = expected;
            bounded = bounded;
            settled = settled;
            within =
                quiet-Within capacity n pc i p' (λ b. m.buffers_length b + flight b) same within;
            apart = quiet-Apart capacity n pc i p' same apart;
            filled = covers g.index 0 (m.buffers_length g.index + flight g.index) filled;
            ready = covers (1 - g.index) g.low (g.low + g.waiting) ready;
          };
          locked =
              quiet-Locked capacity n pc i p' (1 - g.index) (flight (1 - g.index)) g.low g.waiting
                m.dequeuing_length g.owner free locked;
          sole = sole_other small inv i lt p' free_after;
        })

  abbrev marked : (written : ℕ) → ℕ → ℕ → Bool
  marked written =
      mark m.initialised (Enqueuing.buffer_index enq) (reserved_from capacity enq) written true

  pub insert-Inv :
      pc i ≡ inserting size enq
      → Inv capacity n (record m { initialised = marked size }) (update pc i (inserted size enq)) g
  insert-Inv at =
      written-Inv (inserted size enq) (marked size) at refl refl
        (λ b lo hi old. insert-Covered capacity m.initialised pc i size enq b lo hi at old)

  -- A panic after a part of the range is written.
  pub panic-Inv :
      (written : ℕ)
      → pc i ≡ inserting size enq
      → Inv capacity n
          (record m { initialised = marked written })
          (update pc i (panicked size enq))
          g
  panic-Inv written at =
      written-Inv (panicked size enq) (marked written) at refl refl
        (λ b lo hi old. panic-Covered capacity m.initialised pc i size enq written b lo hi at old)

  module _ (at : pc i ≡ inserted size enq) where
    abbrev buffer : ℕ
    buffer = Enqueuing.buffer_index enq

    abbrev flight' : ℕ → ℕ
    flight' = in_flight capacity n (update pc i idle)

    abbrev lengths' : ℕ → ℕ
    lengths' = update m.buffers_length buffer (add_usize (m.buffers_length buffer) size)

    flight-at : (b : ℕ) → flight' b + (if buffer == b then size else 0) ≡ flight b
    flight-at b = omega (arith, flight-update capacity n pc i idle lt b, ap (weight capacity b) at)

    -- Nothing is reserved past the end of a buffer.
    used-capacity : (b : ℕ) → b < 2 → m.buffers_length b + flight b ≤ capacity b
    used-capacity b b_small = elim (Bool-cases (b == g.index)) [
      | inl e ↦ let here : b ≡ g.index = ground (arith, e) in rw here (omega (arith, reserved))
      | inr ne ↦
          let there : b ≡ 1 - g.index = ground (arith, ne, b_small, index_small) in
          rw there (omega (arith, expected, bounded))
    ]

    mine-Within : Within n i (λ b. m.buffers_length b + flight b) (some (slot_of capacity size enq))
    mine-Within =
        subst (λ p. Within n i (λ b. m.buffers_length b + flight b) (slot capacity p)) at (within i)

    used_same : (b : ℕ) → lengths' b + flight' b ≡ m.buffers_length b + flight b
    used_same b =
        ground
          (arith, flight-at b, flight-at buffer, used-capacity buffer mine-Within.2, small buffer)

    pub acknowledge-Inv :
        Inv capacity n (record m { buffers_length = lengths' }) (update pc i idle) g
    acknowledge-Inv = record {
      memory = record {
        index_small = index_small;
        left = left;
        word = word;
        reserved = omega (arith, used_same g.index, reserved);
        expected = expected ∙ sym (used_same (1 - g.index));
        bounded = bounded;
        settled = λ h. omega (arith, settled h, flight-at (1 - g.index));
        within =
            each-update (λ j p. Within n j (λ b. lengths' b + flight' b) (slot capacity p)) pc i
              idle tt
              (λ j other.
                Within-grow n j (slot capacity (pc j)) (λ b. omega (arith, used_same b))
                  (within j));
        apart =
            pairs-update (λ p q. Apart (slot capacity p) (slot capacity q)) pc i idle apart
              (λ j other. tt) (λ j other. Apart-none (slot capacity (pc j)));
        filled = rw (used_same g.index) (
            quiet-Covered capacity n pc i idle m.initialised g.index 0
              (m.buffers_length g.index + flight g.index) (ap (unwritten capacity) at) filled);
        ready =
            quiet-Covered capacity n pc i idle m.initialised (1 - g.index) g.low (g.low + g.waiting)
              (ap (unwritten capacity) at) ready;
      };
      locked =
          quiet-Locked capacity n pc i idle (1 - g.index) (flight' (1 - g.index)) g.low g.waiting
            m.dequeuing_length g.owner (ap owns at)
            (less-Locked (1 - g.index) g.low g.waiting m.dequeuing_length pc g.owner
              (omega (arith, flight-at (1 - g.index))) locked);
      sole = sole_other small inv i lt idle refl;
    }
