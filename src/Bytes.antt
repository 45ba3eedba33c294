-- ===== src/Bytes.antt =====
-- src/write.rs and src/write/vec.rs: slices of bytes with a header and a trailer, and the vector buffer
-- of bytes. `U` is a byte; the sizes of the header and of the trailer are arguments. Byte ranges are
-- checked by `window`, as those of the io-slices are.
pub mod Laws
pub mod Array
use swap_buffer_queue.Prelude.{
  ℕ, ◌+◌, ◌-◌, List, [], ◌++◌, length, take, drop, replicate, ◌==◌, if◌then◌else◌,
}
use swap_buffer_queue.Prelude.Run.{Run, Cmd, done, panic, fault, and_then}
use swap_buffer_queue.Word.{sub_usize}
use swap_buffer_queue.Vectored.{window}

-- What a slice of bytes is written by.
pub record WriteBytesSlice (U V : Type 0) : Type 0 where
  pub size : V → ℕ
  pub write : V → Cmd (List U) (Unit {0})

-- `&mut bytes[start..]` with what is written there.
abbrev pub splice : {U : Type 0} → List U → ℕ → List U → List U
splice bytes start new = take start bytes ++ (new ++ drop (start + length new) bytes)

module _ {U : Type 0} where
  -- `impl WriteBytesSlice for &[u8]`, where `copy_from_slice` panics on another length.
  unfoldable pub copy_from_slice : List U → Cmd (List U) (Unit {0})
  copy_from_slice source slice =
      if length source == length slice then done tt source else panic slice

  abbrev pub bytes_writer : WriteBytesSlice U (List U)
  bytes_writer = record { size = λ v. length v; write = copy_from_slice }

  -- `impl WriteBytesSlice for (usize, F)`: `F` keeps the length of what it writes to.
  abbrev pub closure_writer : WriteBytesSlice U (ℕ × (List U → List U))
  closure_writer = record { size = λ v. v.0; write = λ v slice. done tt (v.1 slice) }

module _ {U : Type 0} (header_size trailer_size : ℕ) where
  -- `BytesSlice::header`, `BytesSlice::trailer` and `BytesSlice::deref`, on the whole frame.
  unfoldable pub header : Cmd (List U) (List U)
  header frame = window 0 header_size frame

  unfoldable pub trailer : Cmd (List U) (List U)
  trailer frame = window (sub_usize (length frame) trailer_size) (length frame) frame

  unfoldable pub deref : Cmd (List U) (List U)
  deref frame = window header_size (sub_usize (length frame) trailer_size) frame

  -- `WriteVecBuffer`: its bytes are the state.
  unfoldable pub capacity : List U → ℕ
  capacity bytes = length bytes - (header_size + trailer_size)

  unfoldable pub slice : (start end : ℕ) → Cmd (List U) (List U)
  slice start end bytes = window start (header_size + end + trailer_size) bytes

  unfoldable pub clear : (start end : ℕ) → Cmd (List U) (Unit {0})
  clear start end bytes = done tt bytes

  unfoldable pub resize : U → ℕ → List U → List U
  resize zero_byte new_capacity bytes =
      replicate (header_size + new_capacity + trailer_size) zero_byte

module _ {U : Type 0} where
  -- What has been written when the writer panics stays.
  unfoldable pub write_at : (start : ℕ) → Run (List U) (Unit {0}) → List U → Run (List U) (Unit {0})
  write_at start (done r part) bytes = done tt (splice bytes start part)
  write_at start (panic part) bytes = panic (splice bytes start part)
  write_at start fault bytes = fault

module _ {U V : Type 0} (writer : WriteBytesSlice U V) (header_size : ℕ) where
  unfoldable pub insert_into : V → (index : ℕ) → Cmd (List U) (Unit {0})
  unfolding write_at
  insert_into value index bytes =
      and_then (window (header_size + index) (header_size + index + writer.size value) bytes)
        λ part bytes'. write_at (header_size + index) (writer.write value part) bytes'
