-- ===== src/Buffer/Vec/Laws.antt =====
-- `VecBuffer` of src/buffer/vec.rs against the contracts of the traits.
use swap_buffer_queue.Prelude.{
  ℕ, ◌+◌, ◌≤◌, ◌<◌, ◌≡◌, refl, none, some, List, ◌∷◌, length, set, length-replicate, arith,
}
use swap_buffer_queue.Prelude.Run.{done}
use swap_buffer_queue.Prelude.Slots.{Holds, Free, emptied}
use swap_buffer_queue.Prelude.Free.{get_elem?-replicate}
use swap_buffer_queue.Buffer.{
  Buffer, BufferLaws, CellBuffer, CellLaws, Resize, ResizeLaws, Drain, DrainLaws,
}
use swap_buffer_queue.Buffer.Cells.{
  slice_cells-Holds, set_cell-lt, take_cell-Holds, clear_cells-Holds,
}
use swap_buffer_queue.Buffer.Vec.{
  VecBuffer, default, capacity, slice, clear, insert, remove, resize,
}

module _ {T : Type 0} where
  abbrev pub buffer : Buffer (VecBuffer T) (List T)
  buffer = record { default = default; capacity = capacity; slice = slice; clear = clear }

  abbrev pub cell_buffer : CellBuffer (VecBuffer T) T
  cell_buffer = record { insert = insert }

  abbrev pub drain : Drain (VecBuffer T) T
  drain = record { remove = remove }

  pub capacity-length : (b : VecBuffer T) → capacity b ≡ length b
  unfolding capacity
  capacity-length b = refl

  pub slice-Holds :
      (b : VecBuffer T) (start : ℕ) (xs : List T)
      → Holds b start xs
      → start + length xs ≤ length b
      → (s : List T) × (slice start (start + length xs) b ≡ done s b) × (s ≡ xs)
  unfolding slice
  slice-Holds b start xs held fits = (xs, slice_cells-Holds b start xs held fits, refl)

  pub clear-Holds :
      (b : VecBuffer T) (start : ℕ) (xs : List T)
      → Holds b start xs
      → start + length xs ≤ length b
      → (b' : VecBuffer T) × (clear start (start + length xs) b ≡ done tt b')
        × (b' ≡ emptied b start (length xs))
  unfolding clear
  clear-Holds b start xs held fits =
      (emptied b start (length xs), clear_cells-Holds b start xs held, refl)

  pub insert-set :
      (b : VecBuffer T) (index : ℕ) (x : T)
      → index < length b
      → (b' : VecBuffer T) × (insert index x b ≡ done tt b') × (b' ≡ set b index (some x))
  unfolding insert
  insert-set b index x fits = (set b index (some x), set_cell-lt b index x fits, refl)

  pub remove-Holds :
      (b : VecBuffer T) (index : ℕ) (x : T) (rest : List T)
      → Holds b index (x ∷ rest)
      → index < length b
      → (b' : VecBuffer T) × (remove index b ≡ done x b') × (b' ≡ set b index none)
  unfolding remove
  remove-Holds b index x rest held fits =
      let (taken, kept) = take_cell-Holds b index x rest held in (set b index none, taken, refl)

  abbrev pub buffer_laws : BufferLaws T (buffer)
  buffer_laws = record {
    slots = λ b. b;
    contents = λ s. s;
    capacity-slots = capacity-length;
    slice_lem = slice-Holds;
    clear_lem = clear-Holds;
    clean-default = λ k low high. absurd (omega (arith, high));
  }

  abbrev pub cell_laws : CellLaws {buf = buffer} buffer_laws cell_buffer
  cell_laws = record { insert_lem = insert-set }

  abbrev pub drain_laws : DrainLaws {buf = buffer} buffer_laws drain
  drain_laws = record { remove_lem = remove-Holds }

  abbrev pub vec_resize : Resize (VecBuffer T)
  vec_resize = record { resize = resize }

  pub length-resize : (b : VecBuffer T) (n : ℕ) → length (resize n b) ≡ n
  unfolding resize
  length-resize b n = length-replicate n none

  pub resize-Free : (b : VecBuffer T) (n : ℕ) → Free b 0 (length b) → Free (resize n b) 0 n
  unfolding resize
  resize-Free b n free k low high = get_elem?-replicate n k none high

  abbrev pub resize_laws : ResizeLaws {buf = buffer} buffer_laws vec_resize
  resize_laws = record { length-resize = length-resize; clean-resize = resize-Free }
