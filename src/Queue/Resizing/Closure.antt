-- ===== src/Queue/Resizing/Closure.antt =====
-- The closure of `Queue::try_dequeue_and_resize` in src/queue.rs: which buffer it leaves.
use swap_buffer_queue.Prelude.{
  ℕ, ◌+◌, ◌≤◌, ◌<◌, ◌≡◌, refl, ◌∙◌, ap, Bool, Bool-cases, true, false, not, inl, inr, Option, none,
  some, List, [], ◌∷◌, ◌++◌, length, length-append, arith, ◌==◌,
}
use swap_buffer_queue.Prelude.Run.{done}
use swap_buffer_queue.Prelude.Slots.{Holds, Free, fill, length-fill, fill-append, Holds-fill}
use swap_buffer_queue.Prelude.Free.{Free-fill}
use swap_buffer_queue.Word.Enqueuing.{check_overflow}
use swap_buffer_queue.Word.Enqueuing.Laws as Enqueuing
use swap_buffer_queue.Buffer.{Buffer, BufferLaws, Resize, ResizeLaws, InsertIntoBuffer, InsertLaws}
use swap_buffer_queue.Queue.Repr.{max_capacity}
use swap_buffer_queue.Queue.Resizing.{resized_capacity, resize_to, insert_values, resize_and_insert}

-- The capacity that a buffer gets.
abbrev pub room_asked : Option ℕ → (current : ℕ) → ℕ
room_asked none current = current
room_asked (some capa) current = capa

-- Whether that is another one.
abbrev pub is_resized : Option ℕ → (current : ℕ) → Bool
is_resized none current = false
is_resized (some capa) current = not (capa == current)

is_resized-resized_capacity :
    (capacity : Option ℕ) (current : ℕ)
    → elim (resized_capacity capacity current) as (λ x. Bool) [ none ↦ false | some _ ↦ true ]
      ≡ is_resized capacity current
unfolding resized_capacity
is_resized-resized_capacity none current = refl
is_resized-resized_capacity (some capa) current = elim (Bool-cases (capa == current)) [
  | inl same ↦ rw same refl
  | inr other ↦ rw other refl
]

length-zero : {A : Type 0} (xs : List A) → length xs ≡ 0 → xs ≡ []
length-zero [] h = refl
length-zero (x ∷ xs) h = absurd (omega (arith, h))

module _ {B S X V : Type 0} {buf : Buffer B S} {laws : BufferLaws X buf} {resizable : Resize B}
    (resizes : ResizeLaws laws resizable) {ins : InsertIntoBuffer B V}
    (into : InsertLaws laws ins) where
  open laws use {slots, capacity-slots}
  open resizes use {length-resize, clean-resize}
  open into use {items, size-items, insert_into_lem}

  -- The items of the values, in order.
  abbrev pub items_of : List V → List X
  items_of [] = []
  items_of (v ∷ vs) = items v ++ items_of vs

  abbrev pub inserted_items : Option (List V) → List X
  inserted_items none = []
  inserted_items (some values) = items_of values

  insert_values-fits :
      (values : List V) (len : ℕ) (b : B)
      → length (slots b) < max_capacity
      → len + length (items_of values) ≤ length (slots b)
      → Free (slots b) len (length (slots b))
      → (b' : B) × (insert_values buf resizable ins values len b
          ≡ done (len + length (items_of values)) b')
        × (slots b' ≡ fill (slots b) len (items_of values))
  unfolding insert_values
  insert_values-fits [] len b small fits free = (b, ground arith, refl)
  insert_values-fits (v ∷ vs) len b small fits free =
      let joined : length (items v ++ items_of vs) ≡ length (items v) + length (items_of vs) =
        length-append (items v) (items_of vs) in
      let (b', inserted, written) =
        insert_into_lem b v len (omega (arith, joined))
          (λ k low high. free k low (omega (arith, high, joined, fits))) in
      let same : length (slots b') ≡ length (slots b) =
        ap length written ∙ length-fill (slots b) len (items v) in
      let free' : Free (slots b') (len + length (items v)) (length (slots b')) =
        rw (same, written) (Free-fill (slots b) len (items v) (length (slots b)) free) in
      let (skipped, over, kept) = insert_values-fits vs len b small (omega (arith, joined)) free in
      let (b'', rest, filled) =
        insert_values-fits vs (len + length (items v)) b' (omega arith) (omega (arith, joined))
          free' in
      elim (Bool-cases (length (items v) == 0)) [
        | inl e ↦
            let none_left : items v ≡ [] = length-zero (items v) (ground (arith, e)) in
            (skipped, ground (arith, e, size-items v, joined), rw none_left kept)
        | inr ne ↦ (
          b'',
          ground (arith, ne, size-items v, capacity-slots b, joined),
          rw (filled, written) (fill-append (slots b) len (items v) (items_of vs)),
        )
      ]

  resize_to-room :
      (capacity : Option ℕ) (b : B)
      → Free (slots b) 0 (length (slots b))
      → room_asked capacity (length (slots b)) < max_capacity
      → (b' : B) × (resize_to buf resizable ins (resized_capacity capacity (length (slots b))) b
          ≡ done tt b')
        × (length (slots b') ≡ room_asked capacity (length (slots b)))
        × Free (slots b') 0 (length (slots b'))
  unfolding resized_capacity resize_to
  resize_to-room none b clean small = (b, refl, refl, clean)
  resize_to-room (some capa) b clean small = elim (Bool-cases (capa == length (slots b))) [
    | inl same ↦ (b, ground (arith, same), ground (arith, same), clean)
    | inr other ↦
        let checks : check_overflow capa ≡ true =
          Enqueuing.check_overflow-Fits 0 capa (omega (arith, small)) ∙ ground (arith, small) in
        (
          resizable.resize capa b,
          ground (arith, other, checks),
          length-resize b capa,
          rw length-resize (clean-resize b capa clean),
        )
  ]

  -- With room for what is asked, the closure gives the capacity that is asked and inserts all the
  -- items in order.
  pub resize_and_insert-fits :
      (capacity : Option ℕ) (insert : Option (List V)) (b : B)
      → Free (slots b) 0 (length (slots b))
      → room_asked capacity (length (slots b)) < max_capacity
      → length (inserted_items insert) ≤ room_asked capacity (length (slots b))
      → (b' : B) × (resize_and_insert buf resizable ins capacity insert b
          ≡ done (is_resized capacity (length (slots b)), length (inserted_items insert)) b')
        × (length (slots b') ≡ room_asked capacity (length (slots b)))
        × Holds (slots b') 0 (inserted_items insert)
        × Free (slots b') (length (inserted_items insert)) (length (slots b'))
  unfolding resize_and_insert
  resize_and_insert-fits capacity none b clean small fits =
      let (b', ran, room, clean') = resize_to-room capacity b clean small in
      (
        b',
        rw (capacity-slots b, ran, is_resized-resized_capacity capacity (length (slots b))),
        room,
        tt,
        clean',
      )
  resize_and_insert-fits capacity (some values) b clean small fits =
      let (b', ran, room, clean') = resize_to-room capacity b clean small in
      let zero_left : 0 + length (items_of values) ≡ length (items_of values) = omega arith in
      let (b'', inserted, filled) =
        insert_values-fits values 0 b' (omega (arith, room, small)) (omega (arith, room, fits))
          clean' in
      (
        b'',
        rw (
          capacity-slots b,
          ran,
          inserted,
          is_resized-resized_capacity capacity (length (slots b)),
          zero_left,
        ),
        ap length filled ∙ length-fill (slots b') 0 (items_of values) ∙ room,
        rw filled (Holds-fill (slots b') 0 (items_of values) (omega (arith, room, fits))),
        rw (filled, length-fill)
            (rw zero_left at (Free-fill (slots b') 0 (items_of values) (length (slots b')) clean')),
      )
