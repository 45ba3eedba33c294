-- ===== src/Concurrent/Inv/Enqueue.antt =====
-- The steps of threads that do not hold the lock keep the invariant.
use swap_buffer_queue.Prelude.{
  ℕ, ◌-◌, ◌<◌, ◌≡◌, sym, ap, ◌∙◌, inl, inr, Bool, true, false, none, some, ◌==◌, Bool-cases,
}
use swap_buffer_queue.Word.Enqueuing.Laws as Enqueuing_laws
use swap_buffer_queue.Queue.Repr.{max_capacity}
use swap_buffer_queue.Threads.{update}
use swap_buffer_queue.Concurrent.{Shared, Pc}
use swap_buffer_queue.Concurrent.Inv.{slot, unwritten, in_flight, owns, Ghost, Inv}
use swap_buffer_queue.Concurrent.Inv.Quiet.{flight_same_at, quiet-Memory, quiet-Locked}

module _ {capacity : ℕ → ℕ} (small : (b : ℕ) → capacity b < max_capacity) {n : ℕ} {m : Shared}
    {pc : ℕ → Pc} {g : Ghost} (inv : Inv capacity n m pc g) (i : ℕ) (lt : i < n) where
  open inv use {memory, locked, sole}
  open memory use {
    index_small, left, word, reserved, expected, bounded, settled, within, apart, filled, ready,
  }

  -- A thread that does not hold the lock goes to where it does not hold it either.
  pub sole_other :
      (p' : Pc) → owns p' ≡ false → (j : ℕ) → owns (update pc i p' j) ≡ true → g.owner ≡ some j
  sole_other p' free j held = elim (Bool-cases (i == j)) [
    | inl e ↦ let here : update pc i p' j ≡ p' = rw e in cc (ap owns here)
    | inr ne ↦ let there : update pc i p' j ≡ pc j = rw ne in sole j (ap owns (sym there) ∙ held)
  ]

  -- Nothing in flight before and after, no lock held before and after; the flag may change.
  pub other-Inv :
      (p' : Pc) (w : ℕ) (shut : Bool)
      → slot capacity (pc i) ≡ none
      → unwritten capacity (pc i) ≡ none
      → owns (pc i) ≡ false
      → slot capacity p' ≡ none
      → owns p' ≡ false
      → w ≡ Enqueuing_laws.word_of g.index g.remaining shut
      → Inv capacity n
          (record m { enqueuing_capacity = w })
          (update pc i p')
          (record g { shut = shut })
  other-Inv p' w shut none_before unwritten_before free none_after free_after word' =
      let same : slot capacity (pc i) ≡ slot capacity p' = none_before ∙ sym none_after in
      record {
        memory =
            quiet-Memory capacity n pc i p' {m = record m { enqueuing_capacity = w }}
              {g = record g { shut = shut }} lt same unwritten_before
              (record {
                index_small = index_small;
                left = left;
                word = word';
                reserved = reserved;
                expected = expected;
                bounded = bounded;
                settled = settled;
                within = within;
                apart = apart;
                filled = filled;
                ready = ready;
              });
        locked = rw (flight_same_at capacity n pc i p' lt same (1 - g.index)) (
            quiet-Locked capacity n pc i p' (1 - g.index) (in_flight capacity n pc (1 - g.index))
              g.low g.waiting m.dequeuing_length g.owner free locked);
        sole = sole_other p' free_after;
      }
