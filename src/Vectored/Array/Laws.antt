-- ===== src/Vectored/Array/Laws.antt =====
-- The array buffer of io-slices against the vector buffer.
use swap_buffer_queue.Prelude.{
  ℕ, zero, suc, ◌+◌, ◌-◌, ◌≡◌, ◌⊎◌, refl, sym, ap, ◌∙◌, Bool-cases, inl, inr, List, [], ◌∷◌, ◌++◌,
  none, length, replicate, length-replicate, set, ltb, arith,
}
use swap_buffer_queue.Prelude.Run.{
  Run, Cmd, done, panic, fault, and_then, zoom, pure, modify, for_range, ◌>>=◌,
}
use swap_buffer_queue.Buffer.Cells.{Cells, set_cell, take_cell}
use swap_buffer_queue.Bytes.Array.{init_array, ArrayWithHeaderAndTrailer, whole, with_whole}
use swap_buffer_queue.Bytes.Array as Arrays
use swap_buffer_queue.Bytes.Array.Laws.{whole-with_whole}
use swap_buffer_queue.Vectored.{window}
use swap_buffer_queue.Vectored.Buffer.{VectoredBuffer}
use swap_buffer_queue.Vectored.Buffer as Vec
use swap_buffer_queue.Vectored.Array.{
  WriteVectoredArrayBuffer, default, capacity, slice, set_slice, insert, remove, clear,
}

-- A run seen through a function on the states.
abbrev pub along : {S R A : Type 0} → (S → R) → Run S A → Run R A
along f (done a s) = done a (f s)
along f (panic s) = panic (f s)
along f fault = fault

Run-cases :
    {S A : Type 0} (r : Run S A)
    → ((a : A) × (s : S) × (r ≡ done a s)) ⊎ (((s : S) × (r ≡ panic s)) ⊎ (r ≡ fault))
Run-cases (done a s) = inl (a, s, refl)
Run-cases (panic s) = inr (inl (s, refl))
Run-cases fault = inr (inr refl)

-- Code on `S` does what code on `R` does.
pub record Simulates {S R A : Type 0} (f : S → R) (m : Cmd S A) (m' : Cmd R A) : Type 0 where
  pub runs : (s : S) → along f (m s) ≡ m' (f s)

module _ {S R : Type 0} {f : S → R} where
  along-and_then :
      {A C : Type 0} (r : Run S A) (k : A → Cmd S C) (l : A → Cmd R C)
      → ((a : A) → Simulates f (k a) (l a))
      → along f (and_then r k) ≡ and_then (along f r) l
  along-and_then (done a s) k l same = (same a).runs s
  along-and_then (panic s) k l same = refl
  along-and_then fault k l same = refl

  bind-Simulates :
      {A C : Type 0} {m : Cmd S A} {m' : Cmd R A} {k : A → Cmd S C} {l : A → Cmd R C}
      → Simulates f m m'
      → ((a : A) → Simulates f (k a) (l a))
      → Simulates f (m >>= k) (m' >>= l)
  bind-Simulates {m = m} {k = k} {l = l} first rest = record {
    runs = λ s. along-and_then (m s) k l rest ∙ ap (λ r. and_then r l) (first.runs s);
  }

  modify-Simulates :
      {g : S → S} {h : R → R} → ((s : S) → f (g s) ≡ h (f s)) → Simulates f (modify g) (modify h)
  modify-Simulates same = record { runs = λ s. ap (λ r. done tt r) (same s) }

  pure-Simulates : {A : Type 0} (a : A) → Simulates f (pure a) (pure a)
  pure-Simulates a = record { runs = λ s. refl }

  for_range-Simulates :
      {body : ℕ → Cmd S (Unit {0})} {body' : ℕ → Cmd R (Unit {0})}
      → ((i : ℕ) → Simulates f (body i) (body' i))
      → (start rounds : ℕ)
      → Simulates f (for_range body start rounds) (for_range body' start rounds)
  unfolding for_range
  for_range-Simulates same start zero = record { runs = λ s. refl }
  for_range-Simulates same start (suc rounds) =
      bind-Simulates (same start) (λ _. for_range-Simulates same (suc start) rounds)

-- Three arrays of the same element are one.
snoc-replicate : {A : Type 0} (n : ℕ) (a : A) → replicate n a ++ (a ∷ []) ≡ replicate (suc n) a
snoc-replicate zero a = refl
snoc-replicate (suc n) a = ap (λ r. a ∷ r) (snoc-replicate n a)

whole-replicate :
    {A : Type 0} (n : ℕ) (a : A)
    → replicate 1 a ++ (replicate n a ++ replicate 1 a) ≡ replicate (n + 2) a
whole-replicate n a =
    let two_more : suc (suc n) ≡ n + 2 = omega arith in
    ap (λ r. a ∷ r) (snoc-replicate n a) ∙ ap (λ k. replicate k a) two_more

module _ {T I : Type 0} (n : ℕ) where
  -- The vector buffer with the same elements.
  abbrev pub as_vec : WriteVectoredArrayBuffer T I → VectoredBuffer T I
  as_vec b = record { owned = b.owned; slices = whole b.slices; total_size = b.total_size }

  owned-Simulates :
      {A : Type 0} (m : Cmd (Cells T) A)
      → Simulates as_vec
          (zoom (λ b. b.owned) (λ o b. record b { owned = o }) m)
          (zoom (λ b. b.owned) (λ o b. record b { owned = o }) m)
  owned-Simulates m = record {
    runs = λ b. elim (Run-cases (m b.owned)) [
      | inl (a, s, e) ↦ rw (zoom, e)
      | inr other ↦ elim other [ inl (s, e) ↦ rw (zoom, e) | inr e ↦ rw (zoom, e) ]
    ];
  }

  slices-Simulates :
      {A : Type 0} (m : Cmd (List I) A)
      → Simulates as_vec
          (zoom (λ b. b.slices) (λ s b. record b { slices = s }) (zoom whole (with_whole 1 n 1) m))
          (zoom (λ b. b.slices) (λ s b. record b { slices = s }) m)
  slices-Simulates m = record {
    runs = λ b. elim (Run-cases (m (whole b.slices))) [
      | inl (a, s, e) ↦ rw (zoom, e, whole-with_whole 1 n 1 s b.slices)
      | inr other ↦ elim other [
        | inl (s, e) ↦ rw (zoom, e, whole-with_whole 1 n 1 s b.slices)
        | inr e ↦ rw (zoom, e)
      ]
    ];
  }

  set_slice-Simulates :
      (index : ℕ) (s : I) → Simulates as_vec (set_slice n index s) (Vec.set_slice index s)
  unfolding set_slice Vec.set_slice
  set_slice-Simulates index s = record {
    runs = λ b. elim (Bool-cases (ltb index (length (whole b.slices)))) [
      | inl e ↦ rw (e, whole-with_whole 1 n 1 (set (whole b.slices) index s) b.slices)
      | inr ne ↦ rw ne
    ];
  }

  slice-Simulates : (start end : ℕ) → Simulates as_vec (slice n start end) (Vec.slice start end)
  unfolding slice Vec.slice
  slice-Simulates start end =
      bind-Simulates (slices-Simulates (window start (end + 2))) (λ s. record { runs = λ b. refl })

  module _ (as_ref : T → I) (len : I → ℕ) where
    insert-Simulates :
        (index : ℕ) (value : T)
        → Simulates as_vec (insert n as_ref len index value) (Vec.insert as_ref len index value)
    unfolding insert Vec.insert
    insert-Simulates index value =
        bind-Simulates (set_slice-Simulates (index + 1) (as_ref value)) (λ _.
          bind-Simulates (owned-Simulates (set_cell index value))
            (λ _. record { runs = λ b. refl }))

    remove-Simulates :
        (index : ℕ) → Simulates as_vec (remove n as_ref len index) (Vec.remove as_ref len index)
    unfolding remove Vec.remove
    remove-Simulates index =
        bind-Simulates (owned-Simulates (take_cell index)) (λ value. record { runs = λ b. refl })

    clear-Simulates :
        (start end : ℕ)
        → Simulates as_vec (clear n as_ref len start end) (Vec.clear as_ref len start end)
    unfolding clear Vec.clear
    clear-Simulates start end = bind-Simulates (modify-Simulates (λ b. refl)) (λ _.
        for_range-Simulates
          (λ index. bind-Simulates (remove-Simulates index) (λ value. pure-Simulates tt)) start
          (end - start))

    -- A new array buffer has the elements and the capacity of a new vector buffer that is resized to as
    -- many cells, and from any array buffer `slice`, `insert`, `remove` and `clear` answer, panic or fault as on the vector
    -- buffer with the same elements, and leave the same elements.
    pub array_same_as_vec :
        (empty_slice : I)
        → (as_vec (default n empty_slice) ≡ Vec.resize empty_slice n (Vec.default_vec empty_slice))
          × (capacity {T = T} n (default n empty_slice)
              ≡ Vec.capacity (Vec.resize {T = T} empty_slice n (Vec.default_vec empty_slice)))
          × ((start end : ℕ) → Simulates as_vec (slice n start end) (Vec.slice start end))
          × ((index : ℕ) (value : T)
              → Simulates as_vec
                  (insert n as_ref len index value)
                  (Vec.insert as_ref len index value))
          × ((index : ℕ)
              → Simulates as_vec (remove n as_ref len index) (Vec.remove as_ref len index))
          × ((start end : ℕ)
              → Simulates as_vec (clear n as_ref len start end) (Vec.clear as_ref len start end))
    unfolding default Vec.resize Vec.default_vec capacity Vec.capacity init_array Arrays.new
    array_same_as_vec empty_slice = (
      ap (λ s. record { owned = replicate n none; slices = s; total_size = 0 })
          (whole-replicate n empty_slice),
      sym (length-replicate n none),
      slice-Simulates,
      insert-Simulates,
      remove-Simulates,
      clear-Simulates,
    )
