-- ===== src/Concurrent/Inv/Reserve.antt =====
-- A reservation keeps the invariant.
use swap_buffer_queue.Prelude.{
  ℕ, ◌+◌, ◌-◌, ◌^◌, ◌≤◌, ◌<◌, ◌≡◌, refl, sym, ap, ◌∙◌, inl, inr, false, Option, none, some, arith,
  ◌==◌, if◌then◌else◌, Bool-cases, leb, ltb,
}
use swap_buffer_queue.Word.Enqueuing as Enqueuing
use swap_buffer_queue.Word.Enqueuing.Laws as Enqueuing_laws
use swap_buffer_queue.Queue.Repr.{max_capacity}
use swap_buffer_queue.Threads.{update, update_self, each-update, pairs-update}
use swap_buffer_queue.Concurrent.{Shared, Pc, inserting, reserved_from}
use swap_buffer_queue.Concurrent.Inv.{
  Slot, slot_of, slot, unwritten, slot_weight, in_flight, owns, Within, Apart, Covered, Ghost, Inv,
}
use swap_buffer_queue.Concurrent.Inv.Quiet.{flight-update, quiet-Covered, quiet-Locked}
use swap_buffer_queue.Concurrent.Inv.Enqueue.{sole_other}

pub Within-grow :
    (n j : ℕ) {used used' : ℕ → ℕ} (x : Option Slot)
    → ((b : ℕ) → used b ≤ used' b)
    → Within n j used x
    → Within n j used' x
Within-grow n j none grows w = w
Within-grow n j (some x) grows (a, b, c, d) = (a, b, c, omega (arith, d, grows x.buffer))

-- A range that begins where the reserved part ends is apart from each of those in that part.
beyond-Apart :
    (n j : ℕ) (used : ℕ → ℕ) (x : Slot) (y : Option Slot)
    → x.from ≡ used x.buffer
    → Within n j used y
    → Apart (some x) y × Apart y (some x)
beyond-Apart n j used x none at w = (tt, tt)
beyond-Apart n j used x (some y) at w = (
  λ e. let there : used x.buffer ≡ used y.buffer = ap used e in inr (omega (arith, there, at, w.3)),
  λ e. let there : used y.buffer ≡ used x.buffer = ap used e in inl (omega (arith, there, at, w.3)),
)

module _ {capacity : ℕ → ℕ} (small : (b : ℕ) → capacity b < max_capacity) {n : ℕ} {m : Shared}
    {pc : ℕ → Pc} {g : Ghost} (inv : Inv capacity n m pc g) where
  open inv use {memory}
  open memory use {index_small, left, word, reserved}

  -- What an open word that the invariant speaks of gives to a thread that reserves.
  word_Fits : Enqueuing_laws.Fits g.index g.remaining
  word_Fits = omega (arith, index_small, left, small g.index)

  pub at_index : Enqueuing.buffer_index m.enqueuing_capacity ≡ g.index
  at_index = rw (word, Enqueuing_laws.buffer_index-word_of g.index g.remaining g.shut word_Fits)

  pub room_left : Enqueuing.remaining_capacity m.enqueuing_capacity ≡ g.remaining
  room_left =
      rw (word, Enqueuing_laws.remaining_capacity-word_of g.index g.remaining g.shut word_Fits)

  pub from_used :
      reserved_from capacity m.enqueuing_capacity
      ≡ m.buffers_length g.index + in_flight capacity n pc g.index
  unfolding reserved_from
  from_used = rw (at_index, room_left) (omega (arith, reserved, small g.index))

  open_word : Enqueuing.is_closed m.enqueuing_capacity ≡ false → g.shut ≡ false
  open_word is_open =
      sym (Enqueuing_laws.is_closed-word_of g.index g.remaining g.shut word_Fits)
      ∙ ap Enqueuing.is_closed (sym word)
      ∙ is_open

  reserves-word_of :
      (size next : ℕ)
      → size < 2 ^ 63
      → Enqueuing.is_closed m.enqueuing_capacity ≡ false
      → Enqueuing.try_reserve m.enqueuing_capacity size ≡ some next
      → (size ≤ g.remaining) × (next ≡ Enqueuing_laws.word_of g.index (g.remaining - size) false)
  reserves-word_of size next size_small is_open reserves =
      let at : Enqueuing.try_reserve m.enqueuing_capacity size ≡ (
          if leb size g.remaining
          then some (Enqueuing_laws.word_of g.index (g.remaining - size) false)
          else none) =
        ap (λ w. Enqueuing.try_reserve w size)
          (word ∙ ap (Enqueuing_laws.word_of g.index g.remaining) (open_word is_open))
        ∙ Enqueuing_laws.try_reserve-word_of g.index g.remaining false word_Fits size size_small in
      ground (arith, at, reserves)

  module _ (i : ℕ) (lt : i < n) (size next : ℕ) (none_before : slot capacity (pc i) ≡ none)
      (unwritten_before : unwritten capacity (pc i) ≡ none) (free : owns (pc i) ≡ false)
      (pos : 0 < size) (size_small : size < 2 ^ 63)
      (is_open : Enqueuing.is_closed m.enqueuing_capacity ≡ false)
      (reserves : Enqueuing.try_reserve m.enqueuing_capacity size ≡ some next) where
    open inv use {locked, sole}
    open memory use {expected, bounded, settled, within, apart, filled, ready}

    abbrev p' : Pc
    p' = inserting size m.enqueuing_capacity

    abbrev flight : ℕ → ℕ
    flight = in_flight capacity n pc

    abbrev flight' : ℕ → ℕ
    flight' = in_flight capacity n (update pc i p')

    flight-at :
        (b : ℕ)
        → flight' b
          ≡ flight b + (if Enqueuing.buffer_index m.enqueuing_capacity == b then size else 0)
    flight-at b =
        omega (arith, flight-update capacity n pc i p' lt b, ap (slot_weight b) none_before)

    flight-index : flight' g.index ≡ flight g.index + size
    flight-index = ground (arith, flight-at g.index, at_index)

    flight-other : flight' (1 - g.index) ≡ flight (1 - g.index)
    flight-other = ground (arith, flight-at (1 - g.index), at_index, index_small)

    used-grows : (b : ℕ) → m.buffers_length b + flight b ≤ m.buffers_length b + flight' b
    used-grows b = omega (arith, flight-at b)

    room_for :
        (size ≤ g.remaining) × (next ≡ Enqueuing_laws.word_of g.index (g.remaining - size) false)
    room_for = reserves-word_of size next size_small is_open reserves

    new_slot-Within : Within n i (λ b. m.buffers_length b + flight' b) (slot capacity p')
    new_slot-Within = (
      lt,
      pos,
      omega (arith, at_index, index_small),
      rw (from_used, at_index) (omega (arith, flight-index)),
    )

    new_slot-Apart :
        (j : ℕ)
        → Apart (slot capacity p') (slot capacity (pc j))
          × Apart (slot capacity (pc j)) (slot capacity p')
    new_slot-Apart j =
        beyond-Apart n j (λ b. m.buffers_length b + flight b)
          (slot_of capacity size m.enqueuing_capacity) (slot capacity (pc j))
          (rw (from_used, at_index)) (within j)

    new_slot-Covered :
        Covered capacity m.initialised
          (update pc i p')
          g.index
          0
          (m.buffers_length g.index + flight' g.index)
    new_slot-Covered k above below =
        elim (Bool-cases (ltb k (m.buffers_length g.index + flight g.index))) [
          | inl e ↦
              quiet-Covered capacity n pc i p' m.initialised g.index 0
                (m.buffers_length g.index + flight g.index) unwritten_before filled k above
                (ground (arith, e))
          | inr ne ↦ inr (
            i,
            rw (update_self pc i p') (
              at_index,
              rw from_used (ground (arith, ne)),
              rw from_used (ground (arith, ne, below, flight-index)),
            ),
          )
        ]

    -- A reservation: its range begins where the reserved part of the buffer ends.
    pub reserve-Inv :
        Inv capacity n
          (record m { enqueuing_capacity = next })
          (update pc i p')
          (record g { remaining = g.remaining - size })
    reserve-Inv = record {
      memory = record {
        index_small = index_small;
        left = omega (arith, left);
        word =
            room_for.1
            ∙ ap (Enqueuing_laws.word_of g.index (g.remaining - size)) (sym (open_word is_open));
        reserved = omega (arith, reserved, flight-index, room_for.0);
        expected = omega (arith, expected, flight-other);
        bounded = bounded;
        settled = λ h. flight-other ∙ settled h;
        within =
            each-update (λ j p. Within n j (λ b. m.buffers_length b + flight' b) (slot capacity p))
              pc i p' new_slot-Within
              (λ j other. Within-grow n j (slot capacity (pc j)) used-grows (within j));
        apart =
            pairs-update (λ p q. Apart (slot capacity p) (slot capacity q)) pc i p' apart
              (λ j other. (new_slot-Apart j).0) (λ j other. (new_slot-Apart j).1);
        filled = new_slot-Covered;
        ready =
            quiet-Covered capacity n pc i p' m.initialised (1 - g.index) g.low (g.low + g.waiting)
              unwritten_before ready;
      };
      locked = rw flight-other (
          quiet-Locked capacity n pc i p' (1 - g.index) (flight (1 - g.index)) g.low g.waiting
            m.dequeuing_length g.owner free locked);
      sole = sole_other small inv i lt p' refl;
    }
