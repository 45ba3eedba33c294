-- ===== src/Concurrent/Inv/After.antt =====
-- What each step of a thread leaves, from the lemmas on the single fields of the invariant.
use swap_buffer_queue.Prelude.{
  ℕ, ◌+◌, ◌-◌, ◌^◌, ◌≤◌, ◌<◌, ◌≡◌, refl, ap, subst, ◌∙◌, inl, inr, Bool, true, false, none, some,
  arith, Bool-cases, ltb,
}
use swap_buffer_queue.Word.{dequeuing_locked}
use swap_buffer_queue.Word.Enqueuing as Enqueuing
use swap_buffer_queue.Word.Enqueuing.Laws as Enqueuing_laws
use swap_buffer_queue.Word.Dequeuing as Dequeuing
use swap_buffer_queue.Word.Dequeuing.Laws as Dequeuing_laws
use swap_buffer_queue.Queue.Repr.{max_capacity}
use swap_buffer_queue.Threads.{update}
use swap_buffer_queue.Concurrent.{
  Shared, Pc, idle, swapping, spinning, holding, cleared, emptied, mark,
}
use swap_buffer_queue.Concurrent.Inv.{slot, unwritten, in_flight, owns, Ghost, Owned, Inv}
use swap_buffer_queue.Concurrent.Inv.Enqueue.{other-Inv}
use swap_buffer_queue.Concurrent.Inv.Lock.{mine-Owned, hold-Inv, unlock-Inv}
use swap_buffer_queue.Concurrent.Inv.Swap.{flipped, swap-Inv}
use swap_buffer_queue.Concurrent.Inv.Release.{own-Inv, removed-Memory, stored-Memory}

module _ {capacity : ℕ → ℕ} (small : (b : ℕ) → capacity b < max_capacity) {n : ℕ} {m : Shared}
    {pc : ℕ → Pc} {g : Ghost} (inv : Inv capacity n m pc g) (i : ℕ) (lt : i < n) where
  open inv use {memory, locked, sole}

  abbrev pub After : Shared → Pc → Type 0
  After m' p' = (g' : Ghost) × Inv capacity n m' (update pc i p') g'

  -- The words that the invariant speaks of.
  pub word_Fits : Enqueuing_laws.Fits g.index g.remaining
  word_Fits = omega (arith, memory.index_small, memory.left, small g.index)

  other_small : (1 - g.index < 2) × (g.waiting < 2 ^ 62)
  other_small =
      (omega (arith, memory.index_small), omega (arith, memory.bounded, small (1 - g.index)))

  pub enqueuing-After :
      (p p' : Pc)
      → pc i ≡ p
      → slot capacity p ≡ none
      → unwritten capacity p ≡ none
      → owns p ≡ false
      → slot capacity p' ≡ none
      → owns p' ≡ false
      → After m p'
  enqueuing-After p p' at no_slot no_unwritten free no_slot' free' = (
    g,
    other-Inv small inv i lt p' m.enqueuing_capacity g.shut (ap (slot capacity) at ∙ no_slot)
        (ap (unwritten capacity) at ∙ no_unwritten) (ap owns at ∙ free) no_slot' free' memory.word,
  )

  pub flag-After :
      (w : ℕ) (shut : Bool)
      → pc i ≡ idle
      → w ≡ Enqueuing_laws.word_of g.index g.remaining shut
      → After (record m { enqueuing_capacity = w }) idle
  flag-After w shut at word' = (
    record g { shut = shut },
    other-Inv small inv i lt idle w shut (ap (slot capacity) at) (ap (unwritten capacity) at)
        (ap owns at) refl refl word',
  )

  pub conflict-After :
      pc i ≡ idle
      → m.dequeuing_length ≡ dequeuing_locked
      → After (record m { dequeuing_length = dequeuing_locked }) idle
  conflict-After at word =
      subst (λ w. After (record m { dequeuing_length = w }) idle) word
        (enqueuing-After idle idle at refl refl refl refl refl)

  pub swap-After :
      (next next_enq : ℕ) (p' : Pc)
      → pc i ≡ swapping next m.enqueuing_capacity
      → Enqueuing.new next (capacity next) ≡ some next_enq
      → slot capacity p' ≡ none
      → Owned g.index
          (in_flight capacity n pc g.index)
          0
          (m.buffers_length g.index + in_flight capacity n pc g.index)
          p'
      → After
          (record m { enqueuing_capacity = Enqueuing.with_closed next_enq m.enqueuing_capacity })
          p'
  swap-After next next_enq p' at made none_after known =
      (flipped small inv i, swap-Inv small inv i lt next next_enq p' at made none_after known)

  pub remove-After :
      (k index from to : ℕ) (p' : Pc)
      → pc i ≡ holding index from to
      → (Owned
            (1 - g.index)
            (in_flight capacity n pc (1 - g.index))
            g.low
            g.waiting
            (holding index from to)
          → from + k ≤ to)
      → slot capacity p' ≡ none
      → (Owned
            (1 - g.index)
            (in_flight capacity n pc (1 - g.index))
            g.low
            g.waiting
            (holding index from to)
          → Owned
              (1 - g.index)
              (in_flight capacity n pc (1 - g.index))
              (g.low + k)
              (g.waiting - k)
              p')
      → After (record m { initialised = mark m.initialised index from k false }) p'
  remove-After k index from to p' at enough none_after knows =
      let (mine, word, known) = mine-Owned small inv i (holding index from to) at refl in
      (
        record g { low = g.low + k; waiting = g.waiting - k; owner = some i },
        rw (known.0, known.1)
            (own-Inv small inv i lt (holding index from to) p' at refl refl refl none_after
              (record m { initialised = mark m.initialised (1 - g.index) g.low k false })
              (g.low + k) (g.waiting - k) refl
              (removed-Memory small inv i lt k (omega (arith, known.1, known.2, enough known))
                known.3)
              (knows known)),
      )

  -- All that was reserved before the swap is acknowledged once the length says so.
  pub take-Owned :
      (index len : ℕ)
      → len ≤ m.buffers_length index
      → Owned
          (1 - g.index)
          (in_flight capacity n pc (1 - g.index))
          g.low
          g.waiting
          (spinning index len)
      → Owned
          (1 - g.index)
          (in_flight capacity n pc (1 - g.index))
          g.low
          g.waiting
          (holding index (m.buffers_length index - len) (m.buffers_length index))
  take-Owned index len enough known =
      let length : m.buffers_length index ≡ m.buffers_length (1 - g.index) =
        ap m.buffers_length known.0 in
      let none_out : in_flight capacity n pc (1 - g.index) ≡ 0 = elim (Bool-cases (ltb 0 g.low)) [
        | inl e ↦ memory.settled (ground (arith, e))
        | inr ne ↦
            let low : g.low ≡ 0 = ground (arith, ne) in
            omega (arith, memory.expected, enough, length, known.1, low)
      ] in
      (
        known.0,
        omega (arith, memory.expected, none_out, length, known.1),
        omega (arith, memory.expected, none_out, length),
        none_out,
      )

  pub store-After :
      (index : ℕ)
      → pc i ≡ cleared index
      → After (record m { buffers_length = update m.buffers_length index 0 }) (emptied index)
  store-After index at =
      let (mine, word, known) = mine-Owned small inv i (cleared index) at refl in
      (
        record g { low = 0; waiting = 0; owner = some i },
        rw known.0 (
            own-Inv small inv i lt (cleared index) (emptied (1 - g.index)) at refl refl refl refl
              (record m { buffers_length = update m.buffers_length (1 - g.index) 0 }) 0 0 refl
              (stored-Memory small inv i lt known.1 known.2) (refl, refl, refl)),
      )

  pub hold-After :
      (p p' : Pc)
      → pc i ≡ p
      → slot capacity p ≡ none
      → unwritten capacity p ≡ none
      → slot capacity p' ≡ none
      → owns p ≡ true
      → (Owned (1 - g.index) (in_flight capacity n pc (1 - g.index)) g.low g.waiting p
          → Owned (1 - g.index) (in_flight capacity n pc (1 - g.index)) g.low g.waiting p')
      → After m p'
  hold-After p p' at no_slot no_unwritten no_slot' held knows = (
    record g { owner = some i },
    hold-Inv small inv i lt p p' at no_slot no_unwritten no_slot' held knows,
  )

  pub unlock-After :
      (p : Pc) (word : ℕ)
      → pc i ≡ p
      → slot capacity p ≡ none
      → unwritten capacity p ≡ none
      → owns p ≡ true
      → (Owned (1 - g.index) (in_flight capacity n pc (1 - g.index)) g.low g.waiting p
          → (word ≡ Dequeuing_laws.word_of (1 - g.index) g.waiting) × (g.waiting ≡ 0 → g.low ≡ 0))
      → After (record m { dequeuing_length = word }) idle
  unlock-After p word at no_slot no_unwritten held knows = (
    record g { owner = none },
    unlock-Inv small inv i lt p idle at no_slot no_unwritten refl word held refl knows,
  )

  -- A word that is stored when the lock is given back.
  pub new_other :
      (len : ℕ)
      → len ≡ g.waiting
      → Dequeuing.new (1 - g.index) len ≡ Dequeuing_laws.word_of (1 - g.index) g.waiting
  new_other len same =
      rw same (Dequeuing_laws.new-word_of (1 - g.index) g.waiting other_small.0 other_small.1)

  pub dequeuing-buffer_len :
      (word : ℕ)
      → word ≡ Dequeuing_laws.word_of (1 - g.index) g.waiting
      → Dequeuing.buffer_len word ≡ g.waiting
  dequeuing-buffer_len word at =
      rw at (Dequeuing_laws.buffer_len-word_of (1 - g.index) g.waiting other_small.0 other_small.1)

  pub dequeuing-buffer_index :
      (word : ℕ)
      → word ≡ Dequeuing_laws.word_of (1 - g.index) g.waiting
      → Dequeuing.buffer_index word ≡ 1 - g.index
  dequeuing-buffer_index word at =
      rw at
        (Dequeuing_laws.buffer_index-word_of (1 - g.index) g.waiting other_small.0 other_small.1)
