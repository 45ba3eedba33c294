-- ===== src/Vectored/Buffer/Total.antt =====
-- The total size that the buffers of io-slices keep, in src/write_vectored/vec.rs and
-- src/write_vectored/array.rs.
use native.Mathlib.Nat.{add-sub_cancel_left}
use swap_buffer_queue.Prelude.{
  ℕ, suc, ◌+◌, ◌%◌, ◌^◌, ◌<◌, ◌≡◌, refl, none, List, [], ◌∷◌, length, arith, set,
}
use swap_buffer_queue.Prelude.Run.{done, zoom, pure, ◌>>=◌, for_range}
use swap_buffer_queue.Prelude.Slots.{Holds}
use swap_buffer_queue.Word.{sub_usize}
use swap_buffer_queue.Buffer.Cells.{take_cell-Holds}
use swap_buffer_queue.Vectored.Buffer.{VectoredBuffer, remove, clear}

-- The bytes in these values.
abbrev pub total_of : {T I : Type 0} → (as_ref : T → I) → (len : I → ℕ) → List T → ℕ
total_of as_ref len [] = 0
total_of as_ref len (x ∷ xs) = len (as_ref x) + total_of as_ref len xs

module _ {T I : Type 0} (as_ref : T → I) (len : I → ℕ)
    (len-small : (v : T) → len (as_ref v) < 2 ^ 64) where
  pub remove-Holds :
      (b : VectoredBuffer T I) (index : ℕ) (x : T) (rest : List T)
      → Holds b.owned index (x ∷ rest)
      → remove as_ref len index b
        ≡ done x (record b {
          owned = set b.owned index none;
          total_size = sub_usize b.total_size (len (as_ref x));
        })
  unfolding remove
  remove-Holds b index x rest held = rw (zoom, (take_cell-Holds b.owned index x rest held).0)

  -- The loop of `clear` takes the size of every value off the total.
  clear_loop :
      (b : VectoredBuffer T I) (start : ℕ) (xs : List T)
      → Holds b.owned start xs
      → (b' : VectoredBuffer T I) × (for_range
            (λ index. do _ ← remove as_ref len index; pure tt)
            start
            (length xs)
            b
          ≡ done tt b')
        × ((b'.total_size + total_of as_ref len xs) % 2 ^ 64 ≡ b.total_size % 2 ^ 64)
  unfolding for_range
  clear_loop b start [] held = (b, refl, ground arith)
  clear_loop b start (x ∷ xs) held =
      let small : len (as_ref x) < 2 ^ 64 = len-small x in
      let rest : Holds (set b.owned start none) (suc start) xs =
        (take_cell-Holds b.owned start x xs held).1 in
      let (b', ran, total) =
        clear_loop
          (record b {
            owned = set b.owned start none;
            total_size = sub_usize b.total_size (len (as_ref x));
          })
          (suc start) xs rest in
      (b', rw (remove-Holds b start x xs held) ran, omega (arith, total, small))

  -- If the size of every value fits a word, `clear` of a range of inserted values runs to its end, and
  -- the total size that it leaves adds up with the size of the values to zero, as words do: it zeroes
  -- the total first, and then takes the size of every value off it.
  pub clear_total :
      (b : VectoredBuffer T I) (start : ℕ) (xs : List T)
      → Holds b.owned start xs
      → (b' : VectoredBuffer T I) × (clear as_ref len start (start + length xs) b ≡ done tt b')
        × ((b'.total_size + total_of as_ref len xs) % 2 ^ 64 ≡ 0)
  unfolding clear
  clear_total b start xs held =
      let (b', ran, total) = clear_loop (record b { total_size = 0 }) start xs held in
      (b', rw add-sub_cancel_left ran, total)
