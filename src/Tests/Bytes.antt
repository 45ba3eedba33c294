-- ===== src/Tests/Bytes.antt =====
-- An array of four bytes, with a header and a trailer of one.
use swap_buffer_queue.Prelude.{ℕ, ◌≡◌, refl, [], ◌∷◌, ◌==◌, length, Bool-cases, inl, inr, arith}
use swap_buffer_queue.Bytes as Bytes
use swap_buffer_queue.Bytes.Array.{
  ArrayWithHeaderAndTrailer, whole, new, capacity, slice, clear, insert_into,
}
use swap_buffer_queue.Bytes.Array.Laws.{
  on_whole, LeavesSized, KeepsLength, new-Sized, array_like_vec,
}

abbrev zeros : ArrayWithHeaderAndTrailer ℕ
zeros = new 1 4 1 0

bytes-KeepsLength : KeepsLength 1 4 1 (Bytes.bytes_writer {U = ℕ})
unfolding Bytes.copy_from_slice
bytes-KeepsLength v part = elim (Bool-cases (length v == length part)) [
  | inl e ↦ rw e (ground (arith, e))
  | inr ne ↦ rw ne refl
]

array_like_vec_example :
    (capacity 1 4 1 zeros ≡ Bytes.capacity 1 1 (whole zeros))
    × (on_whole 1 4 1 (insert_into 1 4 1 Bytes.bytes_writer (7 ∷ 8 ∷ []) 1 zeros)
        ≡ Bytes.insert_into Bytes.bytes_writer 1 (7 ∷ 8 ∷ []) 1 (whole zeros))
    × (on_whole 1 4 1 (slice 1 4 1 1 3 zeros) ≡ Bytes.slice 1 1 1 3 (whole zeros))
    × (on_whole 1 4 1 (clear 1 4 1 1 3 zeros) ≡ Bytes.clear 1 1 1 3 (whole zeros))
    × LeavesSized 1 4 1 (insert_into 1 4 1 Bytes.bytes_writer (7 ∷ 8 ∷ []) 1 zeros)
array_like_vec_example =
    array_like_vec 1 4 1 zeros (new-Sized 1 4 1 0) Bytes.bytes_writer (7 ∷ 8 ∷ []) 1 1 3
      bytes-KeepsLength
