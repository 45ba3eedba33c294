-- ===== src/Bytes/Laws.antt =====
-- The slices and the vector buffer of bytes, of src/write.rs and src/write/vec.rs: the parts of a
-- frame, and what is read back after a write.
use swap_buffer_queue.Prelude.{
  ℕ, zero, suc, ◌+◌, ◌-◌, ◌^◌, ◌≤◌, ◌<◌, ◌≡◌, refl, ◌∙◌, ap, sym, List, [], ◌∷◌, ◌++◌, length, take,
  drop, length-append, length-take, length-drop, ◌==◌, leb, true, arith, ◌⊎◌, inl, inr, Bool-cases,
}
use swap_buffer_queue.Prelude.Run.{done, panic}
use swap_buffer_queue.Word.{sub_usize}
use swap_buffer_queue.Vectored.{window}
use swap_buffer_queue.Bytes.{
  splice, copy_from_slice, bytes_writer, header, trailer, deref, slice, write_at, insert_into,
}

module _ {U : Type 0} where
  pub window-ok :
      (l : List U) (s e : ℕ)
      → s ≤ e
      → e ≤ length l
      → window s e l ≡ done (take (e - s) (drop s l)) l
  unfolding window
  window-ok l s e below fits = ground arith

  -- A window is taken within its bounds, or panics.
  pub window-cases :
      (l : List U) (s e : ℕ)
      → ((part : List U) × (window s e l ≡ done part l) × (s + length part ≡ e) × (e ≤ length l))
        ⊎ (window s e l ≡ panic l)
  unfolding window
  window-cases l s e = elim (Bool-cases (leb s e)) [
    | inr out ↦ inr (rw out)
    | inl below ↦ elim (Bool-cases (leb e (length l))) [
      | inr out ↦ inr (rw (below, out))
      | inl fits ↦ inl (
        take (e - s) (drop s l),
        rw (below, fits),
        ground (arith, below, fits, length-take (e - s) (drop s l), length-drop s l),
        ground (arith, fits),
      )
    ]
  ]

  pub take-take : (n k : ℕ) (l : List U) → n ≤ k → take n (take k l) ≡ take n l
  take-take zero k l less = refl
  take-take (suc n) zero l less = absurd (omega (arith, less))
  take-take (suc n) (suc k) [] less = refl
  take-take (suc n) (suc k) (x ∷ l) less = ap (λ r. x ∷ r) (take-take n k l (omega (arith, less)))

  take-nil : (n : ℕ) → take {A = U} n [] ≡ []
  take-nil zero = refl
  take-nil (suc n) = refl

  drop-nil : (n : ℕ) → drop {A = U} n [] ≡ []
  drop-nil zero = refl
  drop-nil (suc n) = refl

  pub drop-take : (n k : ℕ) (l : List U) → drop n (take (n + k) l) ≡ take k (drop n l)
  drop-take zero k l = let same : 0 + k ≡ k = omega arith in rw same
  drop-take (suc n) k [] = rw (take-nil (suc n + k), take-nil k)
  drop-take (suc n) k (x ∷ l) =
      let same : suc n + k ≡ suc (n + k) = omega arith in rw same (drop-take n k l)

  pub drop-drop : (n k : ℕ) (l : List U) → drop n (drop k l) ≡ drop (k + n) l
  drop-drop n zero l = let same : 0 + n ≡ n = omega arith in rw same
  drop-drop n (suc k) [] = drop-nil n ∙ sym (drop-nil (suc k + n))
  drop-drop n (suc k) (x ∷ l) =
      let same : suc k + n ≡ suc (k + n) = omega arith in rw same (drop-drop n k l)

  pub take-append : (v ys : List U) → take (length v) (v ++ ys) ≡ v
  take-append [] ys = refl
  take-append (x ∷ v) ys = ap (λ r. x ∷ r) (take-append v ys)

  pub take-append-drop : (n : ℕ) (l : List U) → take n l ++ drop n l ≡ l
  take-append-drop zero l = refl
  take-append-drop (suc n) [] = refl
  take-append-drop (suc n) (x ∷ l) = ap (λ r. x ∷ r) (take-append-drop n l)

  take-length : (l : List U) → take (length l) l ≡ l
  take-length [] = refl
  take-length (x ∷ l) = ap (λ r. x ∷ r) (take-length l)

  drop-splice :
      (l v : List U) (a : ℕ) → a ≤ length l → drop a (splice l a v) ≡ v ++ drop (a + length v) l
  drop-splice l v zero fits = refl
  drop-splice [] v (suc a) fits = absurd (omega (arith, fits))
  drop-splice (x ∷ l) v (suc a) fits =
      let same : suc a + length v ≡ suc (a + length v) = omega arith in
      rw same (drop-splice l v a (omega (arith, fits)))

  pub length-splice :
      (l v : List U) (a : ℕ) → a + length v ≤ length l → length (splice l a v) ≡ length l
  length-splice l v a fits = omega (
    arith,
    fits,
    length-append (take a l) (v ++ drop (a + length v) l),
    length-append v (drop (a + length v) l),
    length-take a l,
    length-drop (a + length v) l,
  )

  module _ (header_size trailer_size : ℕ) where
    -- A frame that is not shorter than its header and trailer, in a word, is made of the header, the
    -- bytes between and the trailer, which all can be taken without a panic.
    pub frame_parts :
        (frame : List U)
        → header_size + trailer_size ≤ length frame
        → length frame < 2 ^ 64
        → (h : List U) × (body : List U) × (t : List U) × (header header_size trailer_size frame
            ≡ done h frame)
          × (deref header_size trailer_size frame ≡ done body frame)
          × (trailer header_size trailer_size frame ≡ done t frame)
          × (length h ≡ header_size)
          × (length t ≡ trailer_size)
          × (h ++ (body ++ t) ≡ frame)
    unfolding header deref trailer
    frame_parts frame room small =
        let last : ℕ = length frame - trailer_size in
        let minus : sub_usize (length frame) trailer_size ≡ last = omega (arith, room, small) in
        let rest : List U = drop header_size frame in
        let split : drop (last - header_size) rest ≡ drop last frame =
          drop-drop (last - header_size) header_size frame
          ∙ ap (λ n. drop n frame) (omega (arith, room)) in
        let tail : take (length frame - last) (drop last frame) ≡ drop last frame =
          ap (λ n. take n (drop last frame)) (omega (arith, length-drop last frame))
          ∙ take-length (drop last frame) in
        (
          take header_size frame,
          take (last - header_size) rest,
          drop last frame,
          window-ok frame 0 header_size (omega arith) (omega (arith, room))
              ∙ ap (λ n. done (take n frame) frame) (omega arith),
          rw minus (window-ok frame header_size last (omega (arith, room)) (omega arith)),
          rw minus (
              window-ok frame last (length frame) (omega arith) (omega arith)
              ∙ ap (λ r. done r frame) tail),
          omega (arith, length-take header_size frame, room),
          omega (arith, length-drop last frame, room),
          ap (λ r. take header_size frame ++ (take (last - header_size) rest ++ r)) (sym split)
              ∙ ap (λ r. take header_size frame ++ r) (take-append-drop (last - header_size) rest)
              ∙ take-append-drop header_size frame,
        )

    -- If bytes fit after an index of the buffer, in a word, they are written there without a panic, the
    -- buffer keeps its length, and the slice of their range, past its header and before its trailer,
    -- reads them back.
    pub insert-deref :
        (bytes v : List U) (index : ℕ)
        → header_size + index + length v + trailer_size ≤ length bytes
        → length bytes < 2 ^ 64
        → (bytes' frame : List U) × (insert_into bytes_writer header_size v index bytes
            ≡ done tt bytes')
          × (length bytes' ≡ length bytes)
          × (slice header_size trailer_size index (index + length v) bytes' ≡ done frame bytes')
          × (deref header_size trailer_size frame ≡ done v frame)
    unfolding insert_into copy_from_slice slice write_at deref
    insert-deref bytes v index room small =
        let from : ℕ = header_size + index in
        let bytes' : List U = splice bytes from v in
        let part : List U = take (length v) (drop from bytes) in
        let frame : List U = take (header_size + (length v + trailer_size)) (drop index bytes') in
        let part_len : length part ≡ length v =
          length-take (length v) (drop from bytes) ∙ omega (arith, length-drop from bytes, room) in
        let same_length : length bytes' ≡ length bytes =
          length-splice bytes v from (omega (arith, room)) in
        let frame_len : length frame ≡ header_size + (length v + trailer_size) =
          length-take (header_size + (length v + trailer_size)) (drop index bytes')
          ∙ omega (arith, length-drop index bytes', same_length, room) in
        let opened : window from (from + length v) bytes ≡ done part bytes =
          window-ok bytes from (from + length v) (omega arith) (omega (arith, room))
          ∙ ap (λ n. done (take n (drop from bytes)) bytes) (omega arith) in
        let fits : (length v == length part) ≡ true = ground (arith, part_len) in
        let width : header_size + (index + length v) + trailer_size - index
            ≡ header_size + (length v + trailer_size) =
          omega arith in
        let minus : sub_usize (length frame) trailer_size ≡ header_size + length v =
          omega (arith, frame_len, room, small) in
        let written : drop header_size frame
            ≡ take (length v + trailer_size) (v ++ drop (from + length v) bytes) =
          drop-take header_size (length v + trailer_size) (drop index bytes')
          ∙ ap (λ r. take (length v + trailer_size) r)
              (drop-drop header_size index bytes'
                ∙ ap (λ n. drop n bytes') (omega arith)
                ∙ drop-splice bytes v from (omega (arith, room))) in
        (
          bytes',
          frame,
          rw (opened, fits),
          same_length,
          window-ok bytes' index (header_size + (index + length v) + trailer_size) (omega arith)
                (omega (arith, same_length, room))
              ∙ ap (λ n. done (take n (drop index bytes')) bytes') width,
          rw minus (
              window-ok frame header_size (header_size + length v) (omega arith)
                (omega (arith, frame_len))
              ∙ ap (λ n. done (take n (drop header_size frame)) frame) (omega arith)
              ∙ ap (λ r. done (take (length v) r) frame) written
              ∙ ap (λ r. done r frame)
                  (take-take (length v) (length v + trailer_size)
                      (v ++ drop (from + length v) bytes) (omega arith)
                    ∙ take-append v (drop (from + length v) bytes))),
        )
