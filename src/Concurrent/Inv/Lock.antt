-- ===== src/Concurrent/Inv/Lock.antt =====
-- The steps of the thread that holds the lock, or takes it, by which no memory but the dequeuing word
-- changes.
use swap_buffer_queue.Prelude.{
  ℕ, ◌-◌, ◌<◌, ◌≡◌, refl, sym, ap, subst, ◌∙◌, inl, inr, true, false, Option, none, some, arith,
}
use swap_buffer_queue.Error.{ok, err, conflict}
use swap_buffer_queue.Word.{dequeuing_locked}
use swap_buffer_queue.Word.Dequeuing as Dequeuing
use swap_buffer_queue.Word.Dequeuing.Laws as Dequeuing_laws
use swap_buffer_queue.Queue.Repr.{max_capacity}
use swap_buffer_queue.Threads.{sole_mine, sole_none, update, update_self}
use swap_buffer_queue.Concurrent.{Shared, Pc, idle, dequeuing}
use swap_buffer_queue.Concurrent.Inv.{slot, unwritten, in_flight, owns, Ghost, Owned, Locked, Inv}
use swap_buffer_queue.Concurrent.Inv.Quiet.{flight_same_at, quiet-Memory}

module _ {capacity : ℕ → ℕ} (small : (b : ℕ) → capacity b < max_capacity) {n : ℕ} {m : Shared}
    {pc : ℕ → Pc} {g : Ghost} (inv : Inv capacity n m pc g) (i : ℕ) where
  open inv use {memory, locked, sole}

  abbrev flight : ℕ → ℕ
  flight = in_flight capacity n pc

  -- What a thread that stands where the lock is held knows.
  pub mine-Owned :
      (p : Pc)
      → pc i ≡ p
      → owns p ≡ true
      → (g.owner ≡ some i)
        × (m.dequeuing_length ≡ dequeuing_locked)
        × Owned (1 - g.index) (flight (1 - g.index)) g.low g.waiting p
  mine-Owned p at held =
      let mine : g.owner ≡ some i = sole i (ap owns at ∙ held) in
      let known : Locked (1 - g.index) (flight (1 - g.index)) g.low g.waiting m.dequeuing_length pc
          (some i) =
        subst (Locked (1 - g.index) (flight (1 - g.index)) g.low g.waiting m.dequeuing_length pc)
          mine locked in
      (mine, known.0, subst (Owned (1 - g.index) (flight (1 - g.index)) g.low g.waiting) at known.1)

  -- Who holds the lock changes, and where the thread stands.
  module _ (lt : i < n) (p p' : Pc) (at : pc i ≡ p) (none_before : slot capacity p ≡ none)
      (unwritten_before : unwritten capacity p ≡ none) (none_after : slot capacity p' ≡ none) where
    slot_same : slot capacity (pc i) ≡ slot capacity p'
    slot_same = ap (slot capacity) at ∙ none_before ∙ sym none_after

    turn-Inv :
        (word : ℕ) (owner : Option ℕ)
        → Locked (1 - g.index) (flight (1 - g.index)) g.low g.waiting word (update pc i p') owner
        → ((j : ℕ) → owns (update pc i p' j) ≡ true → owner ≡ some j)
        → Inv capacity n
            (record m { dequeuing_length = word })
            (update pc i p')
            (record g { owner = owner })
    turn-Inv word owner locked' sole' = record {
      memory =
          quiet-Memory capacity n pc i p' {m = record m { dequeuing_length = word }}
            {g = record g { owner = owner }} lt slot_same
            (ap (unwritten capacity) at ∙ unwritten_before)
            (record {
              index_small = memory.index_small;
              left = memory.left;
              word = memory.word;
              reserved = memory.reserved;
              expected = memory.expected;
              bounded = memory.bounded;
              settled = memory.settled;
              within = memory.within;
              apart = memory.apart;
              filled = memory.filled;
              ready = memory.ready;
            });
      locked = rw (flight_same_at capacity n pc i p' lt slot_same (1 - g.index)) locked';
      sole = sole';
    }

    -- The lock is held before and after.
    pub hold-Inv :
        owns p ≡ true
        → (Owned (1 - g.index) (flight (1 - g.index)) g.low g.waiting p
            → Owned (1 - g.index) (flight (1 - g.index)) g.low g.waiting p')
        → Inv capacity n m (update pc i p') (record g { owner = some i })
    hold-Inv held knows =
        let (mine, word, known) = mine-Owned p at held in
        turn-Inv m.dequeuing_length (some i) (word, rw (update_self pc i p') (knows known))
          (sole_mine owns pc i p' g.owner sole (inr mine))

    -- The lock is given back.
    pub unlock-Inv :
        (word : ℕ)
        → owns p ≡ true
        → owns p' ≡ false
        → (Owned (1 - g.index) (flight (1 - g.index)) g.low g.waiting p
            → (word ≡ Dequeuing_laws.word_of (1 - g.index) g.waiting) × (g.waiting ≡ 0 → g.low ≡ 0))
        → Inv capacity n
            (record m { dequeuing_length = word })
            (update pc i p')
            (record g { owner = none })
    unlock-Inv word held free knows =
        let (mine, locked_word, known) = mine-Owned p at held in
        turn-Inv word none (knows known) (sole_none owns pc i p' g.owner sole mine free)

  -- A word that can be taken is that of a free lock, and a word that cannot is the locked one.
  taken_free :
      (owner : Option ℕ) (word : ℕ)
      → Locked (1 - g.index) (flight (1 - g.index)) g.low g.waiting m.dequeuing_length pc owner
      → Dequeuing.try_from_atomic m.dequeuing_length ≡ ok word
      → (owner ≡ none)
        × (word ≡ Dequeuing_laws.word_of (1 - g.index) g.waiting)
        × (g.waiting ≡ 0 → g.low ≡ 0)
  taken_free none word known taken =
      let at : Dequeuing.try_from_atomic m.dequeuing_length
          ≡ ok (Dequeuing_laws.word_of (1 - g.index) g.waiting) =
        ap Dequeuing.try_from_atomic known.0
        ∙ Dequeuing_laws.try_from_atomic-word_of (1 - g.index) g.waiting
            (omega (arith, memory.index_small))
            (omega (arith, memory.bounded, small (1 - g.index))) in
      (refl, cc (at, taken), known.1)
  taken_free (some j) word known taken =
      absurd
        (cc (ap Dequeuing.try_from_atomic known.0, Dequeuing_laws.try_from_atomic-locked, taken))

  pub conflict_locked :
      (owner : Option ℕ)
      → Locked (1 - g.index) (flight (1 - g.index)) g.low g.waiting m.dequeuing_length pc owner
      → Dequeuing.try_from_atomic m.dequeuing_length ≡ err conflict
      → m.dequeuing_length ≡ dequeuing_locked
  conflict_locked none known failed = absurd (
      cc (
        ap Dequeuing.try_from_atomic known.0,
        Dequeuing_laws.try_from_atomic-word_of (1 - g.index) g.waiting
            (omega (arith, memory.index_small))
            (omega (arith, memory.bounded, small (1 - g.index))),
        failed,
      ))
  conflict_locked (some j) known failed = known.0

  pub lock-Inv :
      (lt : i < n) (word : ℕ)
      → pc i ≡ idle
      → Dequeuing.try_from_atomic m.dequeuing_length ≡ ok word
      → Inv capacity n
          (record m { dequeuing_length = dequeuing_locked })
          (update pc i (dequeuing word))
          (record g { owner = some i })
  lock-Inv lt word at taken =
      let (free, known, settled) = taken_free g.owner word locked taken in
      turn-Inv lt idle (dequeuing word) at refl refl refl dequeuing_locked (some i)
        (refl, rw (update_self pc i (dequeuing word)) (known, settled))
        (sole_mine owns pc i (dequeuing word) g.owner sole (inl free))
