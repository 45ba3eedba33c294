-- ===== src/Tests/Parts.antt =====
-- The theorems on the words, the buffers and the frames, at small inputs.
use swap_buffer_queue.Prelude.{
  ℕ, ◌+◌, ◌%◌, ◌^◌, ◌≡◌, refl, none, some, List, [], ◌∷◌, true, false, arith, length,
}
use swap_buffer_queue.Prelude.Run.{done, panic}
use swap_buffer_queue.Word.Enqueuing as Enqueuing
use swap_buffer_queue.Word.Enqueuing.Laws as Enqueuing_laws
use swap_buffer_queue.Buffer.Insert.{insert_iter}
use swap_buffer_queue.Buffer.Insert.Laws.{insert_iter-short}
use swap_buffer_queue.Buffer.Vec.Laws.{cell_buffer, buffer_laws, cell_laws}
use swap_buffer_queue.Vectored.{
  VectoredFrame, included, excluded, unbounded, frame_start, frame_end, frame, frame_slices,
  drop_frame,
}
use swap_buffer_queue.Vectored.Frame.{frame_lem, frame_excluded-short}
use swap_buffer_queue.Vectored.Buffer.{VectoredBuffer, clear}
use swap_buffer_queue.Vectored.Buffer.Total.{clear_total}
use swap_buffer_queue.Bytes as Bytes
use swap_buffer_queue.Bytes.Laws.{insert-deref}
use swap_buffer_queue.Tests.Data.{Cells, empty_cells}

enqueuing_fields_example :
    (w : ℕ) × (Enqueuing.new 1 3 ≡ some w)
    × (Enqueuing.buffer_index w ≡ 1)
    × (Enqueuing.remaining_capacity w ≡ 3)
    × (Enqueuing.is_closed w ≡ false)
    × (Enqueuing.is_closed (Enqueuing.close w) ≡ true)
    × (Enqueuing.buffer_index (Enqueuing.close w) ≡ 1)
    × (Enqueuing.remaining_capacity (Enqueuing.close w) ≡ 3)
    × (Enqueuing.reopen (Enqueuing.close w) ≡ w)
enqueuing_fields_example = Enqueuing_laws.enqueuing_fields 1 3 (omega arith)

-- A size of `2 ^ 63 + 1` is reserved as one of 1.
try_reserve-wrap_example :
    Enqueuing.try_reserve (Enqueuing_laws.word_of 0 4 false) (1 + 2 ^ 63)
    ≡ some (Enqueuing_laws.word_of 0 3 false)
try_reserve-wrap_example = Enqueuing_laws.try_reserve-wrap 0 4 (1 + 2 ^ 63) (omega arith)

insert_iter-short_example :
    (b : Cells) × (insert_iter cell_buffer 1 2 (8 ∷ []) empty_cells ≡ panic b)
    × (b ≡ none ∷ some 8 ∷ none ∷ none ∷ [])
insert_iter-short_example =
    insert_iter-short buffer_laws cell_laws empty_cells 1 2 (8 ∷ []) (omega arith) (omega arith)

-- The io-slices of the values 7, 8 and 9, and one on each side.
abbrev io_slices : List ℕ
io_slices = 0 ∷ 7 ∷ 8 ∷ 9 ∷ 0 ∷ []

frame_lem_example :
    (f : VectoredFrame ℕ) × (l : List ℕ) × (frame (excluded 0) unbounded (some 1) none io_slices
      ≡ done f l)
    × (frame_slices f l ≡ done (1 ∷ 8 ∷ 9 ∷ []) l)
    × (drop_frame f l ≡ done tt io_slices)
unfolding frame_start frame_end
frame_lem_example =
    frame_lem (excluded 0) unbounded io_slices (some 1) none (omega arith) (omega arith)

-- `frame(0..2, ..)` shows one value.
frame_excluded-short_example :
    (f : VectoredFrame ℕ) × (l : List ℕ) × (frame
        (included 0)
        (excluded 2)
        (some 1)
        (some 2)
        io_slices
      ≡ done f l)
    × (frame_slices f l ≡ done (1 ∷ 7 ∷ 2 ∷ []) l)
frame_excluded-short_example =
    frame_excluded-short 0 0 1 2 (7 ∷ 8 ∷ 9 ∷ []) 0 2 (omega arith) (omega arith)

-- Two values of three and four bytes.
abbrev two_values : VectoredBuffer ℕ ℕ
two_values = record { owned = some 0 ∷ some 1 ∷ []; slices = 9 ∷ 0 ∷ 1 ∷ 9 ∷ []; total_size = 7 }

abbrev bytes : ℕ → ℕ
bytes v = (v + 3) % 8

clear_total_example :
    (b : VectoredBuffer ℕ ℕ) × (clear (λ v. v) bytes 0 2 two_values ≡ done tt b)
    × ((b.total_size + 7) % 2 ^ 64 ≡ 0)
clear_total_example =
    clear_total (λ v. v) bytes (λ v. omega arith) two_values 0 (0 ∷ 1 ∷ []) (refl, (refl, tt))

-- Two bytes after the first of a buffer of four, with a header of one byte and a trailer of one.
insert-deref_example :
    (bytes frame : List ℕ) × (Bytes.insert_into Bytes.bytes_writer 1
        (7 ∷ 8 ∷ [])
        1
        (0 ∷ 0 ∷ 0 ∷ 0 ∷ 0 ∷ 0 ∷ [])
      ≡ done tt bytes)
    × (length bytes ≡ 6)
    × (Bytes.slice 1 1 1 3 bytes ≡ done frame bytes)
    × (Bytes.deref 1 1 frame ≡ done (7 ∷ 8 ∷ []) frame)
insert-deref_example =
    insert-deref 1 1 (0 ∷ 0 ∷ 0 ∷ 0 ∷ 0 ∷ 0 ∷ []) (7 ∷ 8 ∷ []) 1 (omega arith) (omega arith)
