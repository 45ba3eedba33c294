-- ===== src/Buffer/Vec.antt =====
-- src/buffer/vec.rs: `VecBuffer`, a boxed slice of cells.
pub mod Laws
use swap_buffer_queue.Prelude.{ℕ, none, List, [], length, replicate}
use swap_buffer_queue.Prelude.Run.{Cmd}
use swap_buffer_queue.Buffer.Cells.{Cells, slice_cells, set_cell, take_cell, clear_cells}

abbrev pub VecBuffer : Type 0 → Type 0
VecBuffer = Cells

module _ {T : Type 0} where
  abbrev pub default : VecBuffer T
  default = []

  unfoldable pub capacity : VecBuffer T → ℕ
  capacity b = length b

  unfoldable pub slice : ℕ → ℕ → Cmd (VecBuffer T) (List T)
  slice start end = slice_cells start end

  unfoldable pub clear : ℕ → ℕ → Cmd (VecBuffer T) (Unit {0})
  unfolding clear_cells
  clear start end = clear_cells start end

  unfoldable pub insert : ℕ → T → Cmd (VecBuffer T) (Unit {0})
  insert index value = set_cell index value

  -- `assume_init_read` copies the value out: the cell counts as moved out of.
  unfoldable pub remove : ℕ → Cmd (VecBuffer T) T
  remove index = take_cell index

  -- The old box is dropped, and its cells drop no value.
  unfoldable pub resize : ℕ → VecBuffer T → VecBuffer T
  resize new_capacity b = replicate new_capacity none
