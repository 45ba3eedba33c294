-- ===== src/Buffer/Array.antt =====
-- src/buffer/array.rs: `ArrayBuffer`, an array of cells, whose length stands for `N`.
pub mod Laws
use swap_buffer_queue.Prelude.{ℕ, none, List, [], length, replicate}
use swap_buffer_queue.Prelude.Run.{Cmd}
use swap_buffer_queue.Buffer.Cells.{Cells, slice_cells, set_cell, take_cell, clear_cells}

abbrev pub ArrayBuffer : Type 0 → Type 0
ArrayBuffer = Cells

module _ {T : Type 0} where
  abbrev pub default : (n : ℕ) → ArrayBuffer T
  default n = replicate n none

  unfoldable pub capacity : ArrayBuffer T → ℕ
  capacity b = length b

  unfoldable pub slice : ℕ → ℕ → Cmd (ArrayBuffer T) (List T)
  slice start end = slice_cells start end

  unfoldable pub clear : ℕ → ℕ → Cmd (ArrayBuffer T) (Unit {0})
  unfolding clear_cells
  clear start end = clear_cells start end

  unfoldable pub insert : ℕ → T → Cmd (ArrayBuffer T) (Unit {0})
  insert index value = set_cell index value

  unfoldable pub remove : ℕ → Cmd (ArrayBuffer T) T
  remove index = take_cell index
