-- ===== src/Vectored/Buffer.antt =====
-- src/write_vectored/vec.rs: the vector buffer of io-slices.
pub mod Total
pub mod Laws
use swap_buffer_queue.Prelude.{
  ℕ, ◌+◌, ◌-◌, Option, none, List, [], length, set, replicate, ltb, if◌then◌else◌,
}
use swap_buffer_queue.Prelude.Run.{
  Cmd, done, panic, ◌>>=◌, ◌>>◌, pure, get, modify, zoom, for_range,
}
use swap_buffer_queue.Word.{add_usize, sub_usize}
use swap_buffer_queue.Buffer.Cells.{Cells, set_cell, take_cell}
use swap_buffer_queue.Vectored.{VectoredSlice, window}

-- `WriteVectoredVecBuffer`
pub record VectoredBuffer (T I : Type 0) : Type 0 where
  pub owned : Cells T
  pub slices : List I
  pub total_size : ℕ

-- `empty_slice` is the io-slice of `EMPTY_SLICE`.
module _ {T I : Type 0} (empty_slice : I) where
  unfoldable pub default_vec : VectoredBuffer T I
  default_vec = record { owned = []; slices = []; total_size = 0 }

  unfoldable pub resize : ℕ → VectoredBuffer T I → VectoredBuffer T I
  resize new_capacity b = record b {
    owned = replicate new_capacity none;
    slices = replicate (new_capacity + 2) empty_slice;
  }

module _ {T I : Type 0} where
  unfoldable pub capacity : VectoredBuffer T I → ℕ
  capacity b = length b.owned

  unfoldable pub slice : (start end : ℕ) → Cmd (VectoredBuffer T I) (VectoredSlice I)
  slice start end = do
    slices ← zoom (λ b. b.slices) (λ s b. record b { slices = s }) (window start (end + 2))
    b ← get
    pure (record { slices = slices; total_size = b.total_size })

  -- `self.slices[index].set(slice)`
  unfoldable pub set_slice : ℕ → I → Cmd (VectoredBuffer T I) (Unit {0})
  set_slice index s b =
      if ltb index (length b.slices)
      then done tt (record b { slices = set b.slices index s })
      else panic b

-- `as_ref` is `T::as_ref`, wrapped in an `IoSlice`, and `len` is the length of an io-slice.
module _ {T I : Type 0} (as_ref : T → I) (len : I → ℕ) where
  unfoldable pub insert : ℕ → T → Cmd (VectoredBuffer T I) (Unit {0})
  unfolding set_slice
  insert index value = do
    _ ← set_slice (index + 1) (as_ref value)
    _ ← zoom (λ b. b.owned) (λ o b. record b { owned = o }) (set_cell index value)
    modify λ b. record b { total_size = add_usize b.total_size (len (as_ref value)) }

  unfoldable pub remove : ℕ → Cmd (VectoredBuffer T I) T
  remove index = do
    value ← zoom (λ b. b.owned) (λ o b. record b { owned = o }) (take_cell index)
    modify λ b. record b { total_size = sub_usize b.total_size (len (as_ref value)) }
    pure value

  unfoldable pub clear : (start end : ℕ) → Cmd (VectoredBuffer T I) (Unit {0})
  unfolding remove
  clear start end = do
    modify λ b. record b { total_size = 0 }
    for_range (λ index. do _ ← remove index; pure tt) start (end - start)
