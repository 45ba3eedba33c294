-- ===== src/Concurrent/Inv/Steps.antt =====
-- The invariant, step by step.
use swap_buffer_queue.Prelude.{
  ℕ, ◌+◌, ◌-◌, ◌^◌, ◌<◌, ◌≡◌, refl, sym, ap, subst, ◌∙◌, true, false, none, some, arith,
}
use swap_buffer_queue.Word.Enqueuing as Enqueuing
use swap_buffer_queue.Word.Enqueuing.Laws as Enqueuing_laws
use swap_buffer_queue.Word.Dequeuing as Dequeuing
use swap_buffer_queue.Word.Dequeuing.Laws as Dequeuing_laws
use swap_buffer_queue.Queue.Repr.{max_capacity}
use swap_buffer_queue.Threads.{sum-none}
use swap_buffer_queue.Concurrent.{
  Shared, Pc, idle, enqueuing, inserting, dequeuing, looking, swapping, spinning, holding, cleared,
  emptied, Move, System, Step, pick, init, Reach, fresh, later, reserved_from,
}
use swap_buffer_queue.Concurrent.Inv.{slot, unwritten, weight, in_flight, owns, Ghost, Inv}
use swap_buffer_queue.Concurrent.Inv.Reserve.{reserve-Inv}
use swap_buffer_queue.Concurrent.Inv.Insert.{insert-Inv, panic-Inv, acknowledge-Inv}
use swap_buffer_queue.Concurrent.Inv.Lock.{lock-Inv, conflict_locked}
use swap_buffer_queue.Concurrent.Inv.Swap.{swapped_from}
use swap_buffer_queue.Concurrent.Inv.After.{
  After, word_Fits, enqueuing-After, flag-After, conflict-After, swap-After, remove-After,
  take-Owned, store-After, hold-After, unlock-After, new_other, dequeuing-buffer_len,
  dequeuing-buffer_index,
}

module _ {capacity sizes : ℕ → ℕ} (small : (b : ℕ) → capacity b < max_capacity)
    (sizes_small : (v : ℕ) → sizes v < 2 ^ 63) {n : ℕ} {m : Shared} {pc : ℕ → Pc} {g : Ghost}
    (inv : Inv capacity n m pc g) (i : ℕ) (lt : i < n) where
  open inv use {memory, locked, sole}

  Move-After :
      {p p' : Pc} {m' : Shared}
      → pc i ≡ p
      → Move capacity sizes m p m' p'
      → After small inv i lt m' p'
  Move-After at (Move.load {value = value}) =
      enqueuing-After small inv i lt idle (enqueuing value m.enqueuing_capacity) at refl refl refl
        refl refl
  Move-After at (Move.refuse_closed {value = value} {enq = enq} e) =
      enqueuing-After small inv i lt (enqueuing value enq) idle at refl refl refl refl refl
  Move-After at (Move.refuse_room {value = value} {enq = enq} e) =
      enqueuing-After small inv i lt (enqueuing value enq) idle at refl refl refl refl refl
  Move-After at
        (Move.reserve {value = value} {enq = enq} {next_enq = next_enq} pos is_open reserves same) =
      subst
        (λ e.
          After small inv i lt (record m { enqueuing_capacity = next_enq })
            (inserting (sizes value) e))
        same
        (
          record g { remaining = g.remaining - sizes value },
          reserve-Inv small inv i lt (sizes value) next_enq (ap (slot capacity) at)
              (ap (unwritten capacity) at) (ap owns at) pos (sizes_small value)
              (ap Enqueuing.is_closed same ∙ is_open)
              (ap (λ e. Enqueuing.try_reserve e (sizes value)) same ∙ reserves),
        )
  Move-After at (Move.reserve_again {value = value} {enq = enq}) =
      enqueuing-After small inv i lt (enqueuing value enq) (enqueuing value m.enqueuing_capacity) at
        refl refl refl refl refl
  Move-After at (Move.insert {size = size} {enq = enq}) = (g, insert-Inv small inv i lt size enq at)
  Move-After at (Move.insert_panics {size = size} {enq = enq} {written = written} part) =
      (g, panic-Inv small inv i lt size enq written at)
  Move-After at (Move.acknowledge {size = size} {enq = enq}) =
      (g, acknowledge-Inv small inv i lt size enq at)
  Move-After at Move.close =
      flag-After small inv i lt (Enqueuing.close m.enqueuing_capacity) true at (
        rw memory.word
          (Enqueuing_laws.close-word_of g.index g.remaining g.shut (word_Fits small inv i lt)))
  Move-After at Move.reopen =
      flag-After small inv i lt (Enqueuing.reopen m.enqueuing_capacity) false at (
        rw memory.word
          (Enqueuing_laws.reopen-word_of g.index g.remaining g.shut (word_Fits small inv i lt)))
  Move-After at (Move.lock {word = word} taken) =
      (record g { owner = some i }, lock-Inv small inv i lt word at taken)
  Move-After at (Move.lock_conflict failed) =
      conflict-After small inv i lt at (conflict_locked small inv i g.owner locked failed)
  Move-After at (Move.resume {word = word} some_left) =
      hold-After small inv i lt (dequeuing word)
        (spinning (Dequeuing.buffer_index word) (Dequeuing.buffer_len word)) at refl refl refl refl
        (λ known. (
          dequeuing-buffer_index small inv i lt word known.0,
          dequeuing-buffer_len small inv i lt word known.0,
          omega (arith, dequeuing-buffer_len small inv i lt word known.0, some_left),
        ))
  Move-After at (Move.look {word = word} none_left) =
      hold-After small inv i lt (dequeuing word) (looking word m.enqueuing_capacity) at refl refl
        refl refl
        (λ known.
          let waits : g.waiting ≡ 0 =
            sym (dequeuing-buffer_len small inv i lt word known.0) ∙ none_left in
          (known.0 ∙ ap (Dequeuing_laws.word_of (1 - g.index)) waits, waits, known.1 waits))
  Move-After at (Move.nothing {word = word} {enq = enq} e) =
      unlock-After small inv i lt (looking word enq) word at refl refl refl
        (λ known. (known.0 ∙ ap (Dequeuing_laws.word_of (1 - g.index)) (sym known.1), λ h. known.2))
  Move-After at (Move.something {word = word} {enq = enq} e) =
      hold-After small inv i lt (looking word enq) (swapping (Dequeuing.buffer_index word) enq) at
        refl refl refl refl
        (λ known. (
          dequeuing-buffer_index small inv i lt word
              (known.0 ∙ ap (Dequeuing_laws.word_of (1 - g.index)) (sym known.1)),
          known.1,
          known.2,
        ))
  Move-After at (Move.swap {next = next} {enq = enq} {next_enq = next_enq} made same full) =
      subst
        (λ e.
          After small inv i lt (record m { enqueuing_capacity = Enqueuing.with_closed next_enq e })
            (spinning (Enqueuing.buffer_index e) (reserved_from capacity e)))
        same
        (swap-After small inv i lt next next_enq
          (spinning (Enqueuing.buffer_index m.enqueuing_capacity)
            (reserved_from capacity m.enqueuing_capacity))
          (at ∙ ap (swapping next) (sym same)) made refl
          (
            (swapped_from small inv i).0,
            (swapped_from small inv i).1,
            omega (arith, (swapped_from small inv i).1, ap (reserved_from capacity) same, full),
          ))
  Move-After at (Move.swap_empty {next = next} {enq = enq} {next_enq = next_enq} made same void) =
      subst
        (λ e.
          After small inv i lt (record m { enqueuing_capacity = Enqueuing.with_closed next_enq e })
            (emptied (Enqueuing.buffer_index e)))
        same
        (swap-After small inv i lt next next_enq
          (emptied (Enqueuing.buffer_index m.enqueuing_capacity))
          (at ∙ ap (swapping next) (sym same)) made refl
          (
            (swapped_from small inv i).0,
            sym (swapped_from small inv i).1 ∙ ap (reserved_from capacity) same ∙ void,
            refl,
          ))
  Move-After at (Move.swap_again {next = next} {enq = enq}) =
      hold-After small inv i lt (swapping next enq) (swapping next m.enqueuing_capacity) at refl
        refl refl refl (λ known. known)
  Move-After at (Move.take {index = index} {len = len} enough) =
      hold-After small inv i lt (spinning index len)
        (holding index (m.buffers_length index - len) (m.buffers_length index)) at refl refl refl
        refl (take-Owned small inv i lt index len enough)
  Move-After at (Move.spin {index = index} {len = len} e) =
      hold-After small inv i lt (spinning index len) (spinning index len) at refl refl refl refl
        (λ known. known)
  Move-After at (Move.give_up {index = index} {len = len}) =
      unlock-After small inv i lt (spinning index len) (Dequeuing.new index len) at refl refl refl
        (λ known. (
          rw known.0 (new_other small inv i lt len known.1),
          λ h. absurd (omega (arith, h, known.2)),
        ))
  Move-After at (Move.remove {index = index} {start = from} {end = to} e) =
      remove-After small inv i lt 1 index from to (holding index (from + 1) to) at
        (λ known. omega (arith, e)) refl
        (λ known. (known.0, omega (arith, known.1), omega (arith, known.1, known.2, e), known.3))
  Move-After at (Move.requeue {index = index} {start = from} {end = to} e) =
      unlock-After small inv i lt (holding index from to) (Dequeuing.new index (to - from)) at refl
        refl refl
        (λ known. (
          rw known.0 (new_other small inv i lt (to - from) (omega (arith, known.1, known.2))),
          λ h. absurd (omega (arith, h, known.1, known.2, e)),
        ))
  Move-After at (Move.clear {index = index} {start = from} {end = to}) =
      remove-After small inv i lt (to - from) index from to (cleared index) at
        (λ known. omega (arith, known.1, known.2)) refl
        (λ known. (known.0, omega (arith, known.1, known.2), known.3))
  Move-After at (Move.store_length {index = index}) = store-After small inv i lt index at
  Move-After at (Move.store_word {index = index}) =
      unlock-After small inv i lt (emptied index) (Dequeuing.new index 0) at refl refl refl
        (λ known. (rw known.0 (new_other small inv i lt 0 (sym known.1)), λ h. known.2))

init-Inv :
    (capacity : ℕ → ℕ)
    → ((b : ℕ) → capacity b < max_capacity)
    → (n word : ℕ) → Enqueuing.new 0 (capacity 0) ≡ some word
    → Inv capacity n (init capacity word).mem (init capacity word).pc (record {
      index = 0;
      remaining = capacity 0;
      shut = false;
      low = 0;
      waiting = 0;
      owner = none;
    })
init-Inv capacity small n word made =
    let none_out : (b : ℕ) → in_flight capacity n (λ _. idle) b ≡ 0 =
      λ b. sum-none (λ _. weight capacity b idle) (λ j. refl) n in
    record {
      memory = record {
        index_small = omega arith;
        left = omega arith;
        word =
            let at : some word ≡ some (Enqueuing_laws.word_of 0 (capacity 0) false) =
              sym made
              ∙ Enqueuing_laws.new-word_of 0 (capacity 0) (omega arith, omega (arith, small 0)) in
            cc at;
        reserved = omega (arith, none_out 0);
        expected = omega (arith, none_out 1);
        bounded = omega arith;
        settled = λ h. none_out 1;
        within = λ j. tt;
        apart = λ i j other. tt;
        filled = λ k above below. absurd (omega (arith, below, none_out 0));
        ready = λ k above below. absurd (omega (arith, below));
      };
      locked = (Dequeuing_laws.new-word_of 1 0 (omega arith) (omega arith), λ h. refl);
      sole = λ j held. absurd (cc held);
    }

pub Step-Inv :
    {capacity sizes : ℕ → ℕ} {n : ℕ} {s t : System}
    → ((b : ℕ) → capacity b < max_capacity)
    → ((v : ℕ) → sizes v < 2 ^ 63)
    → (g : Ghost) → Inv capacity n s.mem s.pc g
    → Step capacity sizes n s t
    → (g' : Ghost) × Inv capacity n t.mem t.pc g'
Step-Inv small sizes_small g inv (pick i lt move) = Move-After small sizes_small inv i lt refl move

-- With buffers of capacities below `2 ^ 62 - 1` and values of sizes below `2 ^ 63`, in a state that threads can reach from a new queue
-- in any order of their steps, the words, the lengths, the ranges and the cells are as `Inv` says for
-- some ghost state: the enqueuing word is made of the ghost's index, room and flag, the reserved
-- ranges of a buffer do not overlap and are as long as what is reserved, and the cells of what waits
-- are initialised, about to be written, or left by a panic of an insertion.
pub Reach-Inv :
    {capacity sizes : ℕ → ℕ} {n : ℕ} {s : System}
    → ((b : ℕ) → capacity b < max_capacity)
    → ((v : ℕ) → sizes v < 2 ^ 63)
    → Reach capacity sizes n s
    → (g : Ghost) × Inv capacity n s.mem s.pc g
Reach-Inv {capacity = capacity} {n = n} small sizes_small (fresh {word = word} made) =
    (_, init-Inv capacity small n word made)
Reach-Inv small sizes_small (later before step) =
    let (g, inv) = Reach-Inv small sizes_small before in Step-Inv small sizes_small g inv step
