-- ===== src/Bytes/Array/Laws.antt =====
-- The array buffer of bytes against the vector buffer.
use swap_buffer_queue.Prelude.{
  ℕ, ◌+◌, ◌≤◌, ◌≡◌, refl, ◌∙◌, ap, inl, inr, sym, List, ◌++◌, length, take, drop, length-append,
  length-take, length-drop, length-replicate, arith,
}
use swap_buffer_queue.Prelude.Run.{Run, done, panic, fault}
use swap_buffer_queue.Bytes as Bytes
use swap_buffer_queue.Bytes.{WriteBytesSlice, splice, write_at}
use swap_buffer_queue.Bytes.Laws.{window-cases, take-append-drop, drop-drop, length-splice}
use swap_buffer_queue.Bytes.Array.{
  init_array, ArrayWithHeaderAndTrailer, whole, new, with_whole, capacity, slice, clear, stored,
  write_slice, insert_into,
}

module _ {U : Type 0} (header_size n trailer_size : ℕ) where
  -- The lengths that the types of the three arrays give.
  abbrev pub Sized : ArrayWithHeaderAndTrailer U → Type 0
  Sized a =
      (length a.header ≡ header_size) × (length a.array ≡ n) × (length a.trailer ≡ trailer_size)

  pub new-Sized : (default : U) → Sized (new header_size n trailer_size default)
  unfolding new init_array
  new-Sized default = (
    length-replicate header_size default,
    length-replicate n default,
    length-replicate trailer_size default,
  )

  length-whole :
      (a : ArrayWithHeaderAndTrailer U)
      → Sized a
      → length (whole a) ≡ header_size + n + trailer_size
  length-whole a sized = omega (
    arith,
    sized.0,
    sized.1,
    sized.2,
    length-append a.header (a.array ++ a.trailer),
    length-append a.array a.trailer,
  )

  pub whole-with_whole :
      (elements : List U) (a : ArrayWithHeaderAndTrailer U)
      → whole (with_whole header_size n trailer_size elements a) ≡ elements
  whole-with_whole elements a =
      ap (λ r. take header_size elements ++ (take n (drop header_size elements) ++ r))
        (sym (drop-drop n header_size elements))
      ∙ ap (λ r. take header_size elements ++ r) (take-append-drop n (drop header_size elements))
      ∙ take-append-drop header_size elements

  with_whole-Sized :
      (elements : List U) (a : ArrayWithHeaderAndTrailer U)
      → length elements ≡ header_size + n + trailer_size
      → Sized (with_whole header_size n trailer_size elements a)
  with_whole-Sized elements a len = (
    length-take header_size elements ∙ omega (arith, len),
    length-take n (drop header_size elements)
        ∙ omega (arith, length-drop header_size elements, len),
    length-drop (header_size + n) elements ∙ omega (arith, len),
  )

  -- A run on the arrays, as one on their elements.
  abbrev pub on_whole : {A : Type 0} → Run (ArrayWithHeaderAndTrailer U) A → Run (List U) A
  on_whole (done r a) = done r (whole a)
  on_whole (panic a) = panic (whole a)
  on_whole fault = fault

  -- A run that leaves arrays of their lengths, or elements of this length.
  abbrev pub LeavesSized : {A : Type 0} → Run (ArrayWithHeaderAndTrailer U) A → Type 0
  LeavesSized (done r a) = Sized a
  LeavesSized (panic a) = Sized a
  LeavesSized fault = Unit

  abbrev pub Leaves : ℕ → Run (List U) (Unit {0}) → Type 0
  Leaves len (done r part) = length part ≡ len
  Leaves len (panic part) = length part ≡ len
  Leaves len fault = Unit

  -- A writer cannot change the length of the slice that it writes to.
  abbrev pub KeepsLength : {V : Type 0} → WriteBytesSlice U V → Type 0
  KeepsLength {V = V} writer = (v : V) (part : List U) → Leaves (length part) (writer.write v part)

  module _ (a : ArrayWithHeaderAndTrailer U) (sized : Sized a) where
    total : length (whole a) ≡ header_size + n + trailer_size
    total = length-whole a sized

    slice-whole :
        (start end : ℕ)
        → on_whole (slice header_size n trailer_size start end a)
          ≡ Bytes.slice header_size trailer_size start end (whole a)
    unfolding slice Bytes.slice
    slice-whole start end = elim (window-cases (whole a) start (header_size + end + trailer_size)) [
      | inl (part, taken, from, fits) ↦ rw (slice, taken)
      | inr stops ↦ rw (slice, stops)
    ]

    stored-Sized :
        (from : ℕ) (part : List U)
        → from + length part ≤ length (whole a)
        → Sized (stored header_size n trailer_size from part a)
    stored-Sized from part fits =
        with_whole-Sized (splice (whole a) from part) a
          (length-splice (whole a) part from fits ∙ total)

    write_slice-whole :
        (from : ℕ) (run : Run (List U) (Unit {0}))
        → on_whole (write_slice header_size n trailer_size from run a) ≡ write_at from run (whole a)
    unfolding write_slice write_at
    write_slice-whole from (done r part) =
        ap (λ b. done tt b) (whole-with_whole (splice (whole a) from part) a)
    write_slice-whole from (panic part) =
        ap (λ b. panic b) (whole-with_whole (splice (whole a) from part) a)
    write_slice-whole from fault = refl

    write_slice-Sized :
        (from len : ℕ) (run : Run (List U) (Unit {0}))
        → from + len ≤ length (whole a)
        → Leaves len run
        → LeavesSized (write_slice header_size n trailer_size from run a)
    unfolding write_slice
    write_slice-Sized from len (done r part) fits same =
        stored-Sized from part (omega (arith, fits, same))
    write_slice-Sized from len (panic part) fits same =
        stored-Sized from part (omega (arith, fits, same))
    write_slice-Sized from len fault fits same = tt

    insert_into-whole :
        {V : Type 0} (writer : WriteBytesSlice U V) (v : V) (index : ℕ)
        → KeepsLength writer
        → (on_whole (insert_into header_size n trailer_size writer v index a)
            ≡ Bytes.insert_into writer header_size v index (whole a))
          × LeavesSized (insert_into header_size n trailer_size writer v index a)
    unfolding insert_into Bytes.insert_into
    insert_into-whole writer v index keeps =
        let from : ℕ = header_size + index in
        elim (window-cases (whole a) from (from + writer.size v)) [
          | inl (part, taken, bounds, fits) ↦ (
            rw (insert_into, taken) (write_slice-whole from (writer.write v part)),
            rw (LeavesSized, insert_into, taken)
                (write_slice-Sized from (length part) (writer.write v part)
                  (omega (arith, bounds, fits)) (keeps v part)),
          )
          | inr stops ↦ (rw (insert_into, stops), rw (LeavesSized, insert_into, stops) sized)
        ]

    -- On arrays of their lengths, with any writer that keeps the length of what it writes to, any value
    -- and any index and range, the array buffer and the vector buffer on the same bytes have the same
    -- capacity, and `insert_into`, `slice` and `clear` give the same result and leave the same bytes,
    -- or panic alike with the same bytes left. What `insert_into` leaves are arrays of their lengths.
    pub array_like_vec :
        {V : Type 0} (writer : WriteBytesSlice U V) (v : V) (index start end : ℕ)
        → KeepsLength writer
        → (capacity header_size n trailer_size a
            ≡ Bytes.capacity header_size trailer_size (whole a))
          × (on_whole (insert_into header_size n trailer_size writer v index a)
              ≡ Bytes.insert_into writer header_size v index (whole a))
          × (on_whole (slice header_size n trailer_size start end a)
              ≡ Bytes.slice header_size trailer_size start end (whole a))
          × (on_whole (clear header_size n trailer_size start end a)
              ≡ Bytes.clear header_size trailer_size start end (whole a))
          × LeavesSized (insert_into header_size n trailer_size writer v index a)
    unfolding capacity clear Bytes.capacity Bytes.clear
    array_like_vec writer v index start end keeps =
        let (alike, leaves) = insert_into-whole writer v index keeps in
        (omega (arith, total), alike, slice-whole start end, refl, leaves)
