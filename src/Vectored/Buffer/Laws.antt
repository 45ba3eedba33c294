-- ===== src/Vectored/Buffer/Laws.antt =====
-- What is read back from a buffer of io-slices, of src/write_vectored/vec.rs and
-- src/write_vectored/array.rs, after an array of values is inserted.
use swap_buffer_queue.Prelude.{
  ℕ, zero, suc, ◌+◌, ◌-◌, ◌%◌, ◌^◌, ◌≤◌, ◌<◌, ◌≡◌, refl, sym, ap, ◌∙◌, some, List, [], ◌∷◌, map,
  length, length-set, length-take, length-drop, set, take, drop, ltb, true, arith,
}
use swap_buffer_queue.Prelude.Run.{done, zoom}
use swap_buffer_queue.Prelude.Slots.{Holds, fill, Holds-fill}
use swap_buffer_queue.Word.{add_usize}
use swap_buffer_queue.Buffer.{CellBuffer}
use swap_buffer_queue.Buffer.Cells.{set_cell-lt}
use swap_buffer_queue.Buffer.Insert.{insert_array}
use swap_buffer_queue.Bytes.Laws.{window-ok, take-take, drop-take, drop-drop}
use swap_buffer_queue.Vectored.{VectoredSlice, window, deref}
use swap_buffer_queue.Vectored.Buffer.{VectoredBuffer, set_slice, insert, slice}
use swap_buffer_queue.Vectored.Buffer.Total.{total_of}

-- Writes elements from an index on.
abbrev set_all : {I : Type 0} → List I → ℕ → List I → List I
set_all l i [] = l
set_all l i (y ∷ ys) = set_all (set l i y) (suc i) ys

module _ {I : Type 0} where
  length-set_all : (l : List I) (i : ℕ) (ys : List I) → length (set_all l i ys) ≡ length l
  length-set_all l i [] = refl
  length-set_all l i (y ∷ ys) = length-set_all (set l i y) (suc i) ys ∙ length-set l i y

  set_all-suc :
      (x : I) (l : List I) (i : ℕ) (ys : List I) → set_all (x ∷ l) (suc i) ys ≡ x ∷ set_all l i ys
  set_all-suc x l i [] = refl
  set_all-suc x l i (y ∷ ys) = set_all-suc x (set l i y) (suc i) ys

  -- What was written stands there.
  take-set_all :
      (l : List I) (i : ℕ) (ys : List I)
      → i + length ys ≤ length l
      → take (length ys) (drop i (set_all l i ys)) ≡ ys
  take-set_all l i [] fits = refl
  take-set_all [] i (y ∷ ys) fits = absurd (omega (arith, fits))
  take-set_all (x ∷ l) zero (y ∷ ys) fits =
      rw (set_all-suc y l 0 ys) (ap (λ r. y ∷ r) (take-set_all l 0 ys (omega (arith, fits))))
  take-set_all (x ∷ l) (suc i) (y ∷ ys) fits =
      rw (set_all-suc x (set l i y) (suc i) ys) (take-set_all l i (y ∷ ys) (omega (arith, fits)))

module _ {T I : Type 0} (as_ref : T → I) (len : I → ℕ) where
  abbrev pub cell_buffer : CellBuffer (VectoredBuffer T I) T
  cell_buffer = record { insert = insert as_ref len }

  -- The total size after values are inserted.
  abbrev added : ℕ → List T → ℕ
  added total [] = total
  added total (x ∷ xs) = added (add_usize total (len (as_ref x))) xs

  insert-lt :
      (b : VectoredBuffer T I) (index : ℕ) (x : T)
      → length b.slices ≡ length b.owned + 2
      → index < length b.owned
      → insert as_ref len index x b
        ≡ done tt (record {
          owned = set b.owned index (some x);
          slices = set b.slices (index + 1) (as_ref x);
          total_size = add_usize b.total_size (len (as_ref x));
        })
  unfolding insert set_slice
  insert-lt b index x sized fits =
      let inside : ltb (index + 1) (length b.slices) ≡ true = ground (arith, sized, fits) in
      rw (inside, zoom, set_cell-lt b.owned index x fits)

  insert_array-all :
      (b : VectoredBuffer T I) (index i : ℕ) (xs : List T)
      → length b.slices ≡ length b.owned + 2
      → index + i + length xs ≤ length b.owned
      → insert_array cell_buffer index i xs b
        ≡ done tt (record {
          owned = fill b.owned (index + i) xs;
          slices = set_all b.slices (index + i + 1) (map as_ref xs);
          total_size = added b.total_size xs;
        })
  unfolding insert_array
  insert_array-all b index i [] sized fits = refl
  insert_array-all b index i (x ∷ xs) sized fits =
      let next_index : index + suc i ≡ suc (index + i) = omega arith in
      let after_next : suc (index + i) + 1 ≡ suc (index + i + 1) = omega arith in
      rw (insert-lt b (index + i) x sized (omega (arith, fits))) (
        insert_array-all
          (record {
            owned = set b.owned (index + i) (some x);
            slices = set b.slices (index + i + 1) (as_ref x);
            total_size = add_usize b.total_size (len (as_ref x));
          })
          index (suc i) xs
          (length-set b.slices (index + i + 1) (as_ref x)
            ∙ sized
            ∙ ap (λ n. n + 2) (sym (length-set b.owned (index + i) (some x))))
          (omega (arith, fits, length-set b.owned (index + i) (some x)))
        ∙ rw (next_index, after_next))

  length-map : (xs : List T) → length (map as_ref xs) ≡ length xs
  length-map [] = refl
  length-map (x ∷ xs) = ap suc (length-map xs)

  added-total :
      (total : ℕ) (xs : List T)
      → total < 2 ^ 64
      → added total xs ≡ (total + total_of as_ref len xs) % 2 ^ 64
  added-total total [] small = omega (arith, small)
  added-total total (x ∷ xs) small =
      added-total (add_usize total (len (as_ref x))) xs (omega arith) ∙ omega arith

  -- With an entry before and one after the io-slices of the values, and a total in a word, an array of
  -- values that fits after an index is inserted without a panic: its cells hold the values, the slice
  -- of their range gives exactly their io-slices, in order, and the total has grown by the bytes in
  -- them, as words do.
  pub insert_array-slices :
      (b : VectoredBuffer T I) (start : ℕ) (xs : List T)
      → length b.slices ≡ length b.owned + 2
      → start + length xs ≤ length b.owned
      → b.total_size < 2 ^ 64
      → (b' : VectoredBuffer T I) × (s : VectoredSlice I) × (insert_array cell_buffer start 0 xs b
          ≡ done tt b')
        × Holds b'.owned start xs
        × (slice start (start + length xs) b' ≡ done s b')
        × (deref s.slices ≡ done (map as_ref xs) s.slices)
        × (s.total_size ≡ (b.total_size + total_of as_ref len xs) % 2 ^ 64)
  unfolding slice deref
  insert_array-slices b start xs sized fits small =
      let ys : List I = map as_ref xs in
      let after : List I = set_all b.slices (start + 1) ys in
      let seen : List I = take (length xs + 2) (drop start after) in
      let same : length after ≡ length b.slices = length-set_all b.slices (start + 1) ys in
      let width : start + length xs + 2 - start ≡ length xs + 2 = omega arith in
      let count : length ys ≡ length xs = length-map xs in
      let seen_len : length seen ≡ length xs + 2 =
        length-take (length xs + 2) (drop start after)
        ∙ omega (arith, length-drop start after, same, sized, fits) in
      let first : start + 0 ≡ start = omega arith in
      let windowed : window start (start + length xs + 2) after ≡ done seen after =
        window-ok after start (start + length xs + 2) (omega arith)
          (omega (arith, same, sized, fits))
        ∙ ap (λ n. done (take n (drop start after)) after) width in
      let more : 1 + (length xs + 1) ≡ length xs + 2 = omega arith in
      let inner : take (length xs) (drop 1 seen) ≡ ys =
        ap (λ n. take (length xs) (drop 1 (take n (drop start after)))) (sym more)
        ∙ ap (λ r. take (length xs) r) (drop-take 1 (length xs + 1) (drop start after))
        ∙ take-take (length xs) (length xs + 1) (drop 1 (drop start after)) (omega arith)
        ∙ ap (λ r. take (length xs) r) (drop-drop 1 start after)
        ∙ ap (λ n. take n (drop (start + 1) after)) (sym count)
        ∙ take-set_all b.slices (start + 1) ys (omega (arith, count, sized, fits)) in
      let ends : length seen - 1 - 1 ≡ length xs = omega (arith, seen_len) in
      (
        record {
          owned = fill b.owned start xs;
          slices = after;
          total_size = added b.total_size xs;
        },
        record { slices = seen; total_size = added b.total_size xs },
        insert_array-all b start 0 xs sized (omega (arith, fits)) ∙ rw first,
        Holds-fill b.owned start xs fits,
        rw (zoom, windowed),
        window-ok seen 1 (length seen - 1) (omega (arith, seen_len)) (omega arith)
            ∙ ap (λ n. done (take n (drop 1 seen)) seen) ends
            ∙ ap (λ r. done r seen) inner,
        added-total b.total_size xs small,
      )
