-- ===== src/Tests/Threads.antt =====
-- The theorems on several threads, at a state that three threads reach on two buffers of four cells:
-- the second holds the slice of what the first enqueued, while the first and the third write into
-- the other buffer.
use swap_buffer_queue.Prelude.{
  ℕ, zero, suc, ◌%◌, ◌==◌, ◌+◌, ◌≤◌, ◌<◌, ◌≡◌, ◌≢◌, refl, ◌⊎◌, inl, true, false, ap, some, arith,
  ◌^◌, ◌-◌,
}
use swap_buffer_queue.Error.{ok}
use swap_buffer_queue.Word.Enqueuing as Enqueuing
use swap_buffer_queue.Word.Dequeuing as Dequeuing
use swap_buffer_queue.Threads.{update}
use swap_buffer_queue.Concurrent.{
  Shared, Pc, inserting, spinning, holding, Move, System, pick, init, Reach, fresh, later,
  reserved_from,
}
use swap_buffer_queue.Concurrent.Inv.{owns, Ghost, Inv}
use swap_buffer_queue.Concurrent.Inv.Steps.{Reach-Inv}
use swap_buffer_queue.Concurrent.Progress.{Steps, Calm, spin_reaches}
use swap_buffer_queue.Concurrent.Safety.{
  insertions_apart, slice_alone, slice_initialised, one_consumer,
}

abbrev four : ℕ → ℕ
four _ = 4

four_small : (b : ℕ) → four b < 2 ^ 62 - 1
four_small b = omega arith

-- The value with the number `v` has this size.
abbrev sizes : ℕ → ℕ
sizes v = v % 4

sizes_small : (v : ℕ) → sizes v < 2 ^ 63
sizes_small v = omega arith

abbrev Reached : Type 0
Reached = (s : System) × Reach four sizes 3 s

abbrev and_step :
    (r : Reached) (i : ℕ)
    → i < 3
    → {m : Shared} {p : Pc} → Move four sizes r.0.mem (r.0.pc i) m p
    → Reached
and_step r i lt {m = m} {p = p} move =
    (record { mem = m; pc = update r.0.pc i p }, later r.1 (pick i lt move))

new_word : Enqueuing.new 0 4 ≡ some 8
unfolding Enqueuing.new
new_word = refl

new_other_word : Enqueuing.new 1 4 ≡ some 9
unfolding Enqueuing.new
new_other_word = refl

reserve_two : (Enqueuing.is_closed 8 ≡ false) × (Enqueuing.try_reserve 8 2 ≡ some 4)
unfolding Enqueuing.is_closed Enqueuing.try_reserve
reserve_two = (refl, refl)

-- The word after the swap, and after one more reservation.
abbrev swapped : ℕ
swapped = Enqueuing.with_closed 9 4

reserve_one : (Enqueuing.is_closed swapped ≡ false) × (Enqueuing.try_reserve swapped 1 ≡ some 7)
unfolding Enqueuing.is_closed Enqueuing.try_reserve Enqueuing.with_closed
reserve_one = (refl, refl)

reserve_more : (Enqueuing.is_closed 7 ≡ false) × (Enqueuing.try_reserve 7 2 ≡ some 3)
unfolding Enqueuing.is_closed Enqueuing.try_reserve
reserve_more = (refl, refl)

lock_free : Dequeuing.try_from_atomic (Dequeuing.new 1 0) ≡ ok 1
unfolding Dequeuing.try_from_atomic Dequeuing.new
lock_free = refl

nothing_left : Dequeuing.buffer_len 1 ≡ 0
unfolding Dequeuing.buffer_len
nothing_left = refl

some_there : Enqueuing.remaining_capacity 4 ≢ four (Enqueuing.buffer_index 4)
unfolding Enqueuing.remaining_capacity Enqueuing.buffer_index
some_there = omega arith

next_word : Enqueuing.new (Dequeuing.buffer_index 1) (four (Dequeuing.buffer_index 1)) ≡ some 9
unfolding Enqueuing.new Dequeuing.buffer_index
next_word = refl

two_reserved : reserved_from four 4 ≢ 0
unfolding reserved_from Enqueuing.remaining_capacity Enqueuing.buffer_index
two_reserved = omega arith

abbrev at_start : Reached
at_start = (init four 8, fresh {word = 8} new_word)

abbrev enqueued : Reached
enqueued =
    let loaded = and_step at_start 0 (omega arith) (Move.load {value = 2}) in
    let reserved = and_step loaded 0 (omega arith) (
      Move.reserve {value = 2} {enq = 8} {next_enq = 4} (omega arith) reserve_two.0 reserve_two.1
        refl) in
    let written = and_step reserved 0 (omega arith) Move.insert in
    and_step written 0 (omega arith) Move.acknowledge

-- The second thread waits for the length.
abbrev spins : Reached
spins =
    let locked = and_step enqueued 1 (omega arith) (Move.lock {word = 1} lock_free) in
    let looked = and_step locked 1 (omega arith) (Move.look nothing_left) in
    let found = and_step looked 1 (omega arith) (Move.something some_there) in
    and_step found 1 (omega arith) (Move.swap {next_enq = 9} next_word refl two_reserved)

length_there : reserved_from four 4 ≤ spins.0.mem.buffers_length (Enqueuing.buffer_index 4)
unfolding reserved_from Enqueuing.remaining_capacity Enqueuing.buffer_index
length_there = omega arith

abbrev held : Reached
held =
    let taken = and_step spins 1 (omega arith) (Move.take length_there) in
    let loaded = and_step taken 0 (omega arith) (Move.load {value = 1}) in
    let reserved = and_step loaded 0 (omega arith) (
      Move.reserve {value = 1} {enq = swapped} {next_enq = 7} (omega arith) reserve_one.0
        reserve_one.1 refl) in
    let loaded_more = and_step reserved 2 (omega arith) (Move.load {value = 2}) in
    and_step loaded_more 2 (omega arith) (
      Move.reserve {value = 2} {enq = 7} {next_enq = 3} (omega arith) reserve_more.0 reserve_more.1
        refl)

held-pcs :
    (held.0.pc 0 ≡ inserting 1 swapped)
    × (held.0.pc 1 ≡ holding 0 0 2)
    × (held.0.pc 2 ≡ inserting 2 7)
unfolding reserved_from Enqueuing.remaining_capacity Enqueuing.buffer_index
held-pcs = (refl, refl, refl)

same_buffer : Enqueuing.buffer_index swapped ≡ Enqueuing.buffer_index 7
unfolding Enqueuing.buffer_index Enqueuing.with_closed
same_buffer = refl

Reach-Inv_example : (g : Ghost) × Inv four 3 held.0.mem held.0.pc g
Reach-Inv_example = Reach-Inv four_small sizes_small held.1

insertions_apart_example :
    ((reserved_from four swapped + 1 ≤ reserved_from four 7)
      ⊎ (reserved_from four 7 + 2 ≤ reserved_from four swapped))
    × (reserved_from four swapped + 1 ≤ 4)
insertions_apart_example =
    insertions_apart four_small sizes_small held.1 0 2 1 swapped 2 7 (omega arith) held-pcs.0
      held-pcs.2 same_buffer

slice_alone_example : Enqueuing.buffer_index 7 ≢ 0
slice_alone_example =
    slice_alone four_small sizes_small held.1 1 2 0 0 2 2 7 held-pcs.1 (inl held-pcs.2)

slice_initialised_example : (held.0.mem.initialised 0 1 ≡ true) × (1 < 4)
slice_initialised_example =
    slice_initialised four_small sizes_small held.1 1 0 0 2 1 held-pcs.1 (omega arith) (omega arith)

one_consumer_example : ◌≡◌ {A = ℕ} 1 1
one_consumer_example =
    one_consumer four_small sizes_small held.1 1 1 (ap owns held-pcs.1) (ap owns held-pcs.1)

-- The second thread spins while the first has yet to write what it has reserved.
abbrev spins_early : Reached
spins_early =
    let loaded = and_step at_start 0 (omega arith) (Move.load {value = 2}) in
    let reserved = and_step loaded 0 (omega arith) (
      Move.reserve {value = 2} {enq = 8} {next_enq = 4} (omega arith) reserve_two.0 reserve_two.1
        refl) in
    let locked = and_step reserved 1 (omega arith) (Move.lock {word = 1} lock_free) in
    let looked = and_step locked 1 (omega arith) (Move.look nothing_left) in
    let found = and_step looked 1 (omega arith) (Move.something some_there) in
    and_step found 1 (omega arith) (Move.swap {next_enq = 9} next_word refl two_reserved)

spins-pc : spins_early.0.pc 1 ≡ spinning 0 2
unfolding reserved_from Enqueuing.remaining_capacity Enqueuing.buffer_index
spins-pc = refl

spins_early-Calm : Calm spins_early.0
spins_early-Calm zero = tt
spins_early-Calm (suc zero) = tt
spins_early-Calm (suc (suc j)) =
    let not_first : (0 == suc (suc j)) ≡ false = ground arith in
    let not_second : (1 == suc (suc j)) ≡ false = ground arith in rw (not_first, not_second) tt

spin_reaches_example :
    (t : System) × (from to : ℕ) × Steps four sizes 3 spins_early.0 t
    × (t.pc 1 ≡ holding 0 from to)
    × (from + 2 ≡ to)
spin_reaches_example =
    spin_reaches four_small sizes_small spins_early.0 1 0 2 spins_early.1 (omega arith)
      spins_early-Calm spins-pc
