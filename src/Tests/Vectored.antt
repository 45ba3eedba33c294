-- ===== src/Tests/Vectored.antt =====
-- The theorems on the buffers of io-slices. A value is a list of numbers, and so is its io-slice.
use swap_buffer_queue.Prelude.{ℕ, ◌≡◌, refl, none, List, [], ◌∷◌, length, arith}
use swap_buffer_queue.Prelude.Run.{done}
use swap_buffer_queue.Prelude.Slots.{Holds}
use swap_buffer_queue.Buffer.Insert.{insert_array}
use swap_buffer_queue.Vectored.{VectoredSlice, deref}
use swap_buffer_queue.Vectored.Buffer.{VectoredBuffer, slice}
use swap_buffer_queue.Vectored.Buffer as Vec
use swap_buffer_queue.Vectored.Buffer.Laws.{cell_buffer, insert_array-slices}
use swap_buffer_queue.Vectored.Array as Array
use swap_buffer_queue.Vectored.Array.Laws.{as_vec, Simulates, array_same_as_vec}

abbrev Io : Type 0
Io = List ℕ

abbrev itself : Io → Io
itself v = v

abbrev three_cells : VectoredBuffer Io Io
three_cells = record {
  owned = none ∷ none ∷ none ∷ [];
  slices = [] ∷ [] ∷ [] ∷ [] ∷ [] ∷ [];
  total_size = 0;
}

abbrev two_values : List Io
two_values = (1 ∷ 2 ∷ []) ∷ (3 ∷ []) ∷ []

insert_array-slices_example :
    (b : VectoredBuffer Io Io) × (s : VectoredSlice Io) × (insert_array
        (cell_buffer itself length)
        1
        0
        two_values
        three_cells
      ≡ done tt b)
    × Holds b.owned 1 two_values
    × (slice 1 3 b ≡ done s b)
    × (deref s.slices ≡ done two_values s.slices)
    × (s.total_size ≡ 3)
insert_array-slices_example =
    insert_array-slices itself length three_cells 1 two_values refl (omega arith) (omega arith)

array_same_as_vec_example :
    (as_vec 3 (Array.default {T = Io} {I = Io} 3 [])
      ≡ Vec.resize {T = Io} {I = Io} [] 3 (Vec.default_vec []))
    × (Array.capacity 3 (Array.default {T = Io} {I = Io} 3 [])
        ≡ Vec.capacity (Vec.resize {T = Io} {I = Io} [] 3 (Vec.default_vec [])))
    × ((start end : ℕ)
        → Simulates (as_vec 3) (Array.slice {T = Io} {I = Io} 3 start end) (Vec.slice start end))
    × ((index : ℕ) (value : Io)
        → Simulates
            (as_vec 3)
            (Array.insert 3 itself length index value)
            (Vec.insert itself length index value))
    × ((index : ℕ)
        → Simulates
            (as_vec 3)
            (Array.remove 3 itself length index)
            (Vec.remove itself length index))
    × ((start end : ℕ)
        → Simulates
            (as_vec 3)
            (Array.clear 3 itself length start end)
            (Vec.clear itself length start end))
array_same_as_vec_example = array_same_as_vec 3 itself length []
