-- ===== src/Buffer/Insert/Laws.antt =====
-- The values of src/buffer.rs against the contract of `InsertIntoBuffer`.
use swap_buffer_queue.Prelude.{
  ℕ, zero, suc, ◌+◌, ◌≤◌, ◌<◌, ◌≡◌, refl, ◌∙◌, ap, some, List, [], ◌∷◌, length, length-set, arith,
}
use swap_buffer_queue.Prelude.Run.{done, panic}
use swap_buffer_queue.Prelude.Slots.{fill}
use swap_buffer_queue.Buffer.{Buffer, BufferLaws, CellBuffer, CellLaws, InsertLaws}
use swap_buffer_queue.Buffer.Insert.{
  into_value_iter, next, insert_iter, insert_array, value_iter, array,
}

module _ {B S T : Type 0} {buf : Buffer B S} (laws : BufferLaws T buf) {cell : CellBuffer B T}
    (cells : CellLaws laws cell) where
  open laws use {slots}
  open cells use {insert_lem}

  insert_array-fill :
      (b : B) (index i : ℕ) (xs : List T)
      → index + i + length xs ≤ length (slots b)
      → (b' : B) × (insert_array cell index i xs b ≡ done tt b')
        × (slots b' ≡ fill (slots b) (index + i) xs)
  unfolding insert_array
  insert_array-fill b index i [] fits = (b, refl, refl)
  insert_array-fill b index i (x ∷ xs) fits =
      let (b₁, stored, slots₁) = insert_lem b (index + i) x (omega arith) in
      let (b', finished, slots') =
        insert_array-fill b₁ index (suc i) xs
          (omega (arith, ap length slots₁, length-set (slots b) (index + i) (some x))) in
      let next_index : index + suc i ≡ suc (index + i) = omega arith in
      (b', rw stored finished, slots' ∙ rw (slots₁, next_index))

  insert_iter-fill :
      (b : B) (i : ℕ) (xs : List T)
      → i + length xs ≤ length (slots b)
      → (b' : B) × (insert_iter cell i (length xs) xs b ≡ done tt b')
        × (slots b' ≡ fill (slots b) i xs)
  unfolding insert_iter next
  insert_iter-fill b i [] fits = (b, refl, refl)
  insert_iter-fill b i (x ∷ xs) fits =
      let (b₁, stored, slots₁) = insert_lem b i x (omega arith) in
      let (b', finished, slots') =
        insert_iter-fill b₁ (suc i) xs
          (omega (arith, ap length slots₁, length-set (slots b) i (some x))) in
      (b', rw stored finished, slots' ∙ ap (λ s. fill s (suc i) xs) slots₁)

  -- On a cell buffer that keeps its contract, an array that fits after an index is written to the
  -- slots from there on, in order, and no other slot changes.
  pub array_into :
      (b : B) (v : List T) (index : ℕ)
      → index + length v ≤ length (slots b)
      → (b' : B) × (insert_array cell index 0 v b ≡ done tt b')
        × (slots b' ≡ fill (slots b) index v)
  array_into b v index fits =
      let start : index + 0 ≡ index = omega arith in
      let (b', finished, slots') = insert_array-fill b index 0 v (omega arith) in
      (b', finished, slots' ∙ rw start)

  abbrev pub array_laws : InsertLaws laws (array cell)
  array_laws = record {
    items = λ v. v;
    size-items = λ v. refl;
    insert_into_lem = λ b v index fits free. array_into b v index fits;
  }

  -- On a cell buffer that keeps its contract, an iterator that reports the length it has, and fits
  -- after an index, writes its items to the slots from there on, in order, and changes no other slot.
  pub into_value_iter-insert_into :
      (b : B) (index : ℕ) (xs : List T)
      → index + length xs ≤ length (slots b)
      → (b' : B) × ((value_iter cell).insert_into (into_value_iter xs) index b ≡ done tt b')
        × (slots b' ≡ fill (slots b) index xs)
  unfolding into_value_iter
  into_value_iter-insert_into b index xs fits = insert_iter-fill b index xs fits

  -- On a cell buffer that keeps its contract, an iterator that yields fewer items than it reports,
  -- and whose items fit, writes what it yields, and then panics: nothing is written past its items.
  pub insert_iter-short :
      (b : B) (i rounds : ℕ) (xs : List T)
      → length xs < rounds
      → i + length xs ≤ length (slots b)
      → (b' : B) × (insert_iter cell i rounds xs b ≡ panic b') × (slots b' ≡ fill (slots b) i xs)
  unfolding insert_iter next
  insert_iter-short b i zero xs short fits = elim short [ ]
  insert_iter-short b i (suc rounds) [] short fits = (b, refl, refl)
  insert_iter-short b i (suc rounds) (x ∷ xs) short fits =
      let (b₁, stored, slots₁) = insert_lem b i x (omega arith) in
      let (b', stopped, slots') =
        insert_iter-short b₁ (suc i) rounds xs (omega arith)
          (omega (arith, ap length slots₁, length-set (slots b) i (some x))) in
      (b', rw stored stopped, slots' ∙ ap (λ s. fill s (suc i) xs) slots₁)
