-- ===== src/Buffer/Array/Laws.antt =====
-- `ArrayBuffer` of src/buffer/array.rs against the contracts of the traits.
use swap_buffer_queue.Prelude.{
  ℕ, ◌+◌, ◌≤◌, ◌<◌, ◌≡◌, refl, Option, none, some, List, ◌∷◌, length, set, length-replicate, arith,
}
use swap_buffer_queue.Prelude.Run.{done}
use swap_buffer_queue.Prelude.Slots.{Holds, Free, emptied}
use swap_buffer_queue.Prelude.Free.{get_elem?-replicate}
use swap_buffer_queue.Buffer.{Buffer, BufferLaws, CellBuffer, CellLaws, Drain, DrainLaws}
use swap_buffer_queue.Buffer.Cells.{
  slice_cells-Holds, set_cell-lt, take_cell-Holds, clear_cells-Holds,
}
use swap_buffer_queue.Buffer.Array.{ArrayBuffer, default, capacity, slice, clear, insert, remove}

module _ {T : Type 0} where
  abbrev pub buffer : (n : ℕ) → Buffer (ArrayBuffer T) (List T)
  buffer n = record { default = default n; capacity = capacity; slice = slice; clear = clear }

  abbrev pub cell_buffer : CellBuffer (ArrayBuffer T) T
  cell_buffer = record { insert = insert }

  abbrev pub drain : Drain (ArrayBuffer T) T
  drain = record { remove = remove }

  pub capacity-length : (b : ArrayBuffer T) → capacity b ≡ length b
  unfolding capacity
  capacity-length b = refl

  pub slice-Holds :
      (b : ArrayBuffer T) (start : ℕ) (xs : List T)
      → Holds b start xs
      → start + length xs ≤ length b
      → (s : List T) × (slice start (start + length xs) b ≡ done s b) × (s ≡ xs)
  unfolding slice
  slice-Holds b start xs held fits = (xs, slice_cells-Holds b start xs held fits, refl)

  pub clear-Holds :
      (b : ArrayBuffer T) (start : ℕ) (xs : List T)
      → Holds b start xs
      → start + length xs ≤ length b
      → (b' : ArrayBuffer T) × (clear start (start + length xs) b ≡ done tt b')
        × (b' ≡ emptied b start (length xs))
  unfolding clear
  clear-Holds b start xs held fits =
      (emptied b start (length xs), clear_cells-Holds b start xs held, refl)

  pub insert-set :
      (b : ArrayBuffer T) (index : ℕ) (x : T)
      → index < length b
      → (b' : ArrayBuffer T) × (insert index x b ≡ done tt b') × (b' ≡ set b index (some x))
  unfolding insert
  insert-set b index x fits = (set b index (some x), set_cell-lt b index x fits, refl)

  pub remove-Holds :
      (b : ArrayBuffer T) (index : ℕ) (x : T) (rest : List T)
      → Holds b index (x ∷ rest)
      → index < length b
      → (b' : ArrayBuffer T) × (remove index b ≡ done x b') × (b' ≡ set b index none)
  unfolding remove
  remove-Holds b index x rest held fits =
      let (taken, kept) = take_cell-Holds b index x rest held in (set b index none, taken, refl)

  pub default-Free : (n : ℕ) → Free (default {T = T} n) 0 (length (default {T = T} n))
  default-Free n k low high =
      get_elem?-replicate n k none (omega (arith, high, length-replicate {A = Option T} n none))

  abbrev pub buffer_laws : (n : ℕ) → BufferLaws T (buffer n)
  buffer_laws n = record {
    slots = λ b. b;
    contents = λ s. s;
    capacity-slots = capacity-length;
    slice_lem = slice-Holds;
    clear_lem = clear-Holds;
    clean-default = default-Free n;
  }

  abbrev pub cell_laws : (n : ℕ) → CellLaws {buf = buffer n} (buffer_laws n) cell_buffer
  cell_laws n = record { insert_lem = insert-set }

  abbrev pub drain_laws : (n : ℕ) → DrainLaws {buf = buffer n} (buffer_laws n) drain
  drain_laws n = record { remove_lem = remove-Holds }
