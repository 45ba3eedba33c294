-- ===== src/Buffer/Cells.antt =====
-- A boxed slice or an array of `Cell<MaybeUninit<T>>`, on which the array and vector buffers stand.
-- A cell is `none` while it is not initialised, and after its value has been moved out.
use swap_buffer_queue.Prelude.{
  ℕ, zero, suc, ◌+◌, ◌-◌, ◌≤◌, ◌<◌, ◌≡◌, refl, Option, none, some, List, [], ◌∷◌, ltb, leb,
  if◌then◌else◌, length, get_elem?, set, arith,
}
use native.Mathlib.Nat.{add-sub_cancel_left}
use swap_buffer_queue.Prelude.Run.{Cmd, done, panic, fault, ◌>>=◌, pure, for_range}
use swap_buffer_queue.Prelude.Slots.{Holds, emptied, Holds-set_below}

abbrev pub Cells : Type 0 → Type 0
Cells T = List (Option T)

module _ {T : Type 0} where
  -- The values of `count` cells, if all of them are initialised.
  unfoldable pub read : Cells T → ℕ → ℕ → Option (List T)
  read cells start zero = some []
  read cells start (suc count) = elim (get_elem? cells start) [
    | none ↦ none
    | some cell ↦ elim cell [
      | none ↦ none
      | some x ↦ elim (read cells (suc start) count) [ none ↦ none | some xs ↦ some (x ∷ xs) ]
    ]
  ]

  -- `&mut self.0[range]` as a slice of `T`: the bounds are checked, initialisation is not.
  unfoldable pub slice_cells : ℕ → ℕ → Cmd (Cells T) (List T)
  slice_cells start end cells =
      if leb start end
      then if leb end (length cells)
        then elim (read cells start (end - start)) [ none ↦ fault | some xs ↦ done xs cells ]
        else panic cells
      else panic cells

  -- `self.0[index].set(MaybeUninit::new(value))`
  unfoldable pub set_cell : ℕ → T → Cmd (Cells T) (Unit {0})
  set_cell index value cells =
      if ltb index (length cells) then done tt (set cells index (some value)) else panic cells

  -- `self.0[index]` taken by `assume_init`, and left not initialised.
  unfoldable pub take_cell : ℕ → Cmd (Cells T) T
  take_cell index cells = elim (get_elem? cells index) [
    | none ↦ panic cells
    | some cell ↦ elim cell [ none ↦ fault | some x ↦ done x (set cells index none) ]
  ]

  pub read-Holds :
      (cells : Cells T) (start : ℕ) (xs : List T)
      → Holds cells start xs
      → read cells start (length xs) ≡ some xs
  unfolding read
  read-Holds cells start [] held = refl
  read-Holds cells start (x ∷ xs) held = ground (arith, read-Holds cells (suc start) xs)

  pub slice_cells-Holds :
      (cells : Cells T) (start : ℕ) (xs : List T)
      → Holds cells start xs
      → start + length xs ≤ length cells
      → slice_cells start (start + length xs) cells ≡ done xs cells
  unfolding slice_cells
  slice_cells-Holds cells start xs held fits = ground (arith, read-Holds cells start xs held)

  pub set_cell-lt :
      (cells : Cells T) (index : ℕ) (x : T)
      → index < length cells
      → set_cell index x cells ≡ done tt (set cells index (some x))
  unfolding set_cell
  set_cell-lt cells index x fits = ground arith

  -- A taken cell gives its value, and the cells after it keep theirs.
  pub take_cell-Holds :
      (cells : Cells T) (index : ℕ) (x : T) (rest : List T)
      → Holds cells index (x ∷ rest)
      → (take_cell index cells ≡ done x (set cells index none))
        × Holds (set cells index none) (suc index) rest
  unfolding take_cell
  take_cell-Holds cells index x rest held =
      (ground arith, Holds-set_below cells index (suc index) none rest (omega arith) held.1)

  -- `for index in range { self.remove(index) }`
  unfoldable pub clear_cells : ℕ → ℕ → Cmd (Cells T) (Unit {0})
  unfolding for_range take_cell
  clear_cells start end = for_range (λ i. do _ ← take_cell i; pure tt) start (end - start)

  take_loop-Holds :
      (cells : Cells T) (start : ℕ) (xs : List T)
      → Holds cells start xs
      → for_range (λ i. do _ ← take_cell i; pure tt) start (length xs) cells
        ≡ done tt (emptied cells start (length xs))
  unfolding for_range
  take_loop-Holds cells start [] held = refl
  take_loop-Holds cells start (x ∷ xs) held =
      let (taken, rest) = take_cell-Holds cells start x xs held in
      rw taken (take_loop-Holds (set cells start none) (suc start) xs rest)

  pub clear_cells-Holds :
      (cells : Cells T) (start : ℕ) (xs : List T)
      → Holds cells start xs
      → clear_cells start (start + length xs) cells ≡ done tt (emptied cells start (length xs))
  unfolding clear_cells
  clear_cells-Holds cells start xs held =
      rw add-sub_cancel_left (take_loop-Holds cells start xs held)
