-- ===== src/Vectored.antt =====
-- src/write_vectored.rs: `VectoredSlice`, its frame, and the end of the frame. `I` is `IoSlice`, whose
-- lifetimes play no role here.
pub mod Frame
pub mod Buffer
pub mod Array
use swap_buffer_queue.Prelude.{
  ℕ, ◌+◌, ◌-◌, Option, none, some, List, length, get_elem?, set, take, drop, ltb, leb,
  if◌then◌else◌,
}
use swap_buffer_queue.Prelude.Run.{Cmd, done, panic, ◌>>=◌, pure, get, modify}

-- The io-slices of the buffer, with one more on each side.
pub record VectoredSlice (I : Type 0) : Type 0 where
  pub slices : List I
  pub total_size : ℕ

-- `core::ops::Bound`
pub data Bound : Type 0 where
  included : ℕ → Bound
  excluded : ℕ → Bound
  unbounded : Bound

-- A frame is the window `start..end` on the io-slices, which are the state, and what it replaced.
pub record VectoredFrame (I : Type 0) : Type 0 where
  pub start : ℕ
  pub end : ℕ
  pub header : Option I
  pub trailer : Option I

unfoldable pub frame_start : Bound → ℕ
frame_start (included n) = n
frame_start (excluded n) = n + 1
frame_start unbounded = 0

unfoldable pub frame_end : Bound → (slices_len : ℕ) → ℕ
frame_end (included n) slices_len = n + 2
frame_end (excluded n) slices_len = n + 1
frame_end unbounded slices_len = slices_len

module _ {I : Type 0} where
  -- `&slices[start..end]`
  unfoldable pub window : (start end : ℕ) → Cmd (List I) (List I)
  window start end slices =
      if leb start end
      then if leb end (length slices)
        then done (take (end - start) (drop start slices)) slices
        else panic slices
      else panic slices

  -- `VectoredSlice::deref`
  unfoldable pub deref : Cmd (List I) (List I)
  unfolding window
  deref slices = window 1 (length slices - 1) slices

  -- `mem::replace(&mut slices[index], value)`
  unfoldable pub replace : ℕ → I → Cmd (List I) I
  replace index value slices = elim (get_elem? slices index) [
    | none ↦ panic slices
    | some old ↦ done old (set slices index value)
  ]

  -- `if let Some(value) = value { Some(mem::replace(..)) } else { .. None }`
  unfoldable pub replace_some : ℕ → Option I → Cmd (List I) (Option I)
  unfolding replace
  replace_some index none = pure none
  replace_some index (some value) = do old ← replace index value; pure (some old)

  -- Where the window begins and ends: an io-slice that is not given has no place in it.
  unfoldable pub inner_start : ℕ → Option I → ℕ
  inner_start start none = start + 1
  inner_start start (some h) = start

  unfoldable pub inner_end : ℕ → Option I → ℕ
  inner_end end none = end - 1
  inner_end end (some t) = end

  -- `VectoredSlice::frame`
  unfoldable pub frame :
      (start_bound end_bound : Bound) → (header trailer : Option I) → Cmd (List I) (VectoredFrame I)
  unfolding replace_some window
  frame start_bound end_bound header trailer = do
    slices ← get
    let start = frame_start start_bound
    let end = frame_end end_bound (length slices)
    old_header ← replace_some start header
    old_trailer ← replace_some (end - 1) trailer
    _ ← window (inner_start start header) (inner_end end trailer)
    pure (record {
      start = inner_start start header;
      end = inner_end end trailer;
      header = old_header;
      trailer = old_trailer;
    })

  -- `VectoredFrame::deref`
  unfoldable pub frame_slices : VectoredFrame I → Cmd (List I) (List I)
  frame_slices f = window f.start f.end

  -- `slices[index] = value` in the window of a frame.
  unfoldable pub write : VectoredFrame I → (index : ℕ) → I → Cmd (List I) (Unit {0})
  write f index value slices =
      if ltb index (f.end - f.start)
      then done tt (set slices (f.start + index) value)
      else panic slices

  unfoldable pub write_back : VectoredFrame I → (index : ℕ) → Option I → Cmd (List I) (Unit {0})
  unfolding write
  write_back f index none = pure tt
  write_back f index (some value) = write f index value

  -- `VectoredFrame::drop`
  unfoldable pub drop_frame : VectoredFrame I → Cmd (List I) (Unit {0})
  unfolding write_back
  drop_frame f = do _ ← write_back f 0 f.header; write_back f (f.end - f.start - 1) f.trailer
