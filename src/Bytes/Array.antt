-- ===== src/Bytes/Array.antt =====
-- src/write/array.rs, and the array with header and trailer of src/utils.rs that it is made of.
pub mod Laws
use swap_buffer_queue.Prelude.{ℕ, ◌+◌, List, ◌++◌, take, drop, replicate}
use swap_buffer_queue.Prelude.Run.{Run, Cmd, done, panic, fault}
use swap_buffer_queue.Vectored.{window}
use swap_buffer_queue.Bytes.{WriteBytesSlice, splice}

-- `init_array`, with a default that is the same at each call.
unfoldable pub init_array : {T : Type 0} → (n : ℕ) → T → List T
init_array n default = replicate n default

-- Three arrays, one behind the other.
pub record ArrayWithHeaderAndTrailer (T : Type 0) : Type 0 where
  pub header : List T
  pub array : List T
  pub trailer : List T

module _ {T : Type 0} where
  -- `deref`
  abbrev pub whole : ArrayWithHeaderAndTrailer T → List T
  whole a = a.header ++ (a.array ++ a.trailer)

  module _ (header_size n trailer_size : ℕ) where
    unfoldable pub new : T → ArrayWithHeaderAndTrailer T
    unfolding init_array
    new default = record {
      header = init_array header_size default;
      array = init_array n default;
      trailer = init_array trailer_size default;
    }

    -- What is left when the slice that `deref_mut` gives has been written to.
    abbrev pub with_whole : List T → ArrayWithHeaderAndTrailer T → ArrayWithHeaderAndTrailer T
    with_whole elements a = record {
      header = take header_size elements;
      array = take n (drop header_size elements);
      trailer = drop (header_size + n) elements;
    }

-- `WriteArrayBuffer`. Slice bounds are checked on the whole of the three arrays.
module _ {U : Type 0} (header_size n trailer_size : ℕ) where
  unfoldable pub capacity : ArrayWithHeaderAndTrailer U → ℕ
  capacity a = n

  -- `&mut self.0[range.start..HEADER_SIZE + range.end + TRAILER_SIZE]`
  unfoldable pub slice : (start end : ℕ) → Cmd (ArrayWithHeaderAndTrailer U) (List U)
  slice start end a = elim (window start (header_size + end + trailer_size) (whole a)) [
    | done part _ ↦ done part a
    | panic _ ↦ panic a
    | fault ↦ fault
  ]

  unfoldable pub clear : (start end : ℕ) → Cmd (ArrayWithHeaderAndTrailer U) (Unit {0})
  clear start end a = done tt a

  -- The arrays with `part` in the place that begins at `from`.
  abbrev pub stored :
      (from : ℕ) → List U → ArrayWithHeaderAndTrailer U → ArrayWithHeaderAndTrailer U
  stored from part a = with_whole header_size n trailer_size (splice (whole a) from part) a

  -- `self.write(&mut *s)` on a slice of the arrays that begins at `from`; what has been written when
  -- it panics stays.
  unfoldable pub write_slice :
      (from : ℕ) → Run (List U) (Unit {0}) → Cmd (ArrayWithHeaderAndTrailer U) (Unit {0})
  write_slice from (done r part) a = done tt (stored from part a)
  write_slice from (panic part) a = panic (stored from part a)
  write_slice from fault a = fault

  -- `&buffer.0[HEADER_SIZE + index..HEADER_SIZE + index + size]`, and the write.
  unfoldable pub insert_into :
      {V : Type 0}
      → WriteBytesSlice U V
      → V
      → (index : ℕ) → Cmd (ArrayWithHeaderAndTrailer U) (Unit {0})
  unfolding write_slice
  insert_into writer value index a =
      elim (window (header_size + index) (header_size + index + writer.size value) (whole a)) [
        | done s _ ↦ write_slice (header_size + index) (writer.write value s) a
        | panic _ ↦ panic a
        | fault ↦ fault
      ]
