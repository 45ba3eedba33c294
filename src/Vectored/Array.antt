-- ===== src/Vectored/Array.antt =====
-- src/write_vectored/array.rs: the array buffer of io-slices, on the array with header and trailer of
-- src/utils.rs.
pub mod Laws
use swap_buffer_queue.Prelude.{
  ℕ, ◌+◌, ◌-◌, Option, none, List, length, set, replicate, ltb, if◌then◌else◌,
}
use swap_buffer_queue.Prelude.Run.{
  Cmd, done, panic, ◌>>=◌, ◌>>◌, pure, get, modify, zoom, for_range,
}
use swap_buffer_queue.Word.{add_usize, sub_usize}
use swap_buffer_queue.Buffer.Cells.{Cells, set_cell, take_cell}
use swap_buffer_queue.Bytes.Array.{init_array, ArrayWithHeaderAndTrailer, whole, with_whole}
use swap_buffer_queue.Bytes.Array as Arrays
use swap_buffer_queue.Vectored.{VectoredSlice, window}

pub record WriteVectoredArrayBuffer (T I : Type 0) : Type 0 where
  pub owned : Cells T
  pub slices : ArrayWithHeaderAndTrailer I
  pub total_size : ℕ

module _ {T I : Type 0} (n : ℕ) where
  -- `empty_slice` is the io-slice of `EMPTY_SLICE`.
  unfoldable pub default : (empty_slice : I) → WriteVectoredArrayBuffer T I
  unfolding init_array Arrays.new
  default empty_slice = record {
    owned = init_array n none;
    slices = Arrays.new 1 n 1 empty_slice;
    total_size = 0;
  }

  unfoldable pub capacity : WriteVectoredArrayBuffer T I → ℕ
  capacity b = n

  unfoldable pub slice : (start end : ℕ) → Cmd (WriteVectoredArrayBuffer T I) (VectoredSlice I)
  slice start end = do
    slices ←
        zoom (λ b. b.slices) (λ s b. record b { slices = s })
          (zoom whole (with_whole 1 n 1) (window start (end + 2)))
    b ← get
    pure (record { slices = slices; total_size = b.total_size })

  -- `self.slices[index].set(slice)`
  unfoldable pub set_slice : ℕ → I → Cmd (WriteVectoredArrayBuffer T I) (Unit {0})
  set_slice index s b =
      if ltb index (length (whole b.slices))
      then done tt (record b { slices = with_whole 1 n 1 (set (whole b.slices) index s) b.slices })
      else panic b

  -- `as_ref` is `T::as_ref`, wrapped in an `IoSlice`, and `len` is the length of an io-slice.
  module _ (as_ref : T → I) (len : I → ℕ) where
    unfoldable pub insert : ℕ → T → Cmd (WriteVectoredArrayBuffer T I) (Unit {0})
    unfolding set_slice
    insert index value = do
      _ ← set_slice (index + 1) (as_ref value)
      _ ← zoom (λ b. b.owned) (λ o b. record b { owned = o }) (set_cell index value)
      modify λ b. record b { total_size = add_usize b.total_size (len (as_ref value)) }

    unfoldable pub remove : ℕ → Cmd (WriteVectoredArrayBuffer T I) T
    remove index = do
      value ← zoom (λ b. b.owned) (λ o b. record b { owned = o }) (take_cell index)
      modify λ b. record b { total_size = sub_usize b.total_size (len (as_ref value)) }
      pure value

    unfoldable pub clear : (start end : ℕ) → Cmd (WriteVectoredArrayBuffer T I) (Unit {0})
    unfolding remove
    clear start end = do
      modify λ b. record b { total_size = 0 }
      for_range (λ index. do _ ← remove index; pure tt) start (end - start)
