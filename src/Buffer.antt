-- ===== src/Buffer.antt =====
-- The traits of src/buffer.rs as interfaces: `Buffer`, `InsertIntoBuffer`, `CellBuffer`, `Resize` and
-- `Drain`, and what the queue relies on in them. `B` is a buffer, `S` its slice type, `V` a value
-- that is inserted, `X` the item that one index of the buffer holds. Types of the
-- program stand in `Type 0`.
pub mod Cells
pub mod Array
pub mod Vec
pub mod Insert
use swap_buffer_queue.Prelude.{
  ℕ, suc, ◌+◌, ◌≤◌, ◌<◌, ◌≡◌, Option, none, some, List, ◌∷◌, length, set,
}
use swap_buffer_queue.Prelude.Run.{Cmd, done}
use swap_buffer_queue.Prelude.Slots.{Holds, Free, emptied, fill}

pub record Buffer (B S : Type 0) : Type 0 where
  pub default : B
  pub capacity : B → ℕ
  pub slice : (start end : ℕ) → Cmd B S
  pub clear : (start end : ℕ) → Cmd B (Unit {0})

pub record InsertIntoBuffer (B V : Type 0) : Type 0 where
  pub size : V → ℕ
  pub insert_into : V → (index : ℕ) → Cmd B (Unit {0})

pub record CellBuffer (B T : Type 0) : Type 0 where
  pub insert : (index : ℕ) → T → Cmd B (Unit {0})

pub record Resize (B : Type 0) : Type 0 where
  pub resize : (capacity : ℕ) → B → B

pub record Drain (B X : Type 0) : Type 0 where
  pub remove : (index : ℕ) → Cmd B X

-- The contract of `Buffer`: of each index, `slots` is the item that is inserted there, if any, and
-- a range of inserted items can be taken as a slice, and cleared: then nothing is inserted there, and
-- the other indices keep theirs. In a default buffer nothing is inserted.
pub record BufferLaws {B S : Type 0} (X : Type 0) (buf : Buffer B S) : Type 0 where
  pub slots : B → List (Option X)
  pub contents : S → List X
  pub capacity-slots : (b : B) → buf.capacity b ≡ length (slots b)
  pub slice_lem :
      (b : B) (start : ℕ) (xs : List X)
      → Holds (slots b) start xs
      → start + length xs ≤ length (slots b)
      → (s : S) × (buf.slice start (start + length xs) b ≡ done s b) × (contents s ≡ xs)
  pub clear_lem :
      (b : B) (start : ℕ) (xs : List X)
      → Holds (slots b) start xs
      → start + length xs ≤ length (slots b)
      → (b' : B) × (buf.clear start (start + length xs) b ≡ done tt b')
        × (slots b' ≡ emptied (slots b) start (length xs))
  pub clean-default : Free (slots buf.default) 0 (length (slots buf.default))

-- The contract of `InsertIntoBuffer`: a value is laid out as its items, from an index on, in a range
-- where nothing is inserted.
pub record InsertLaws {B S V X : Type 0} {buf : Buffer B S} (laws : BufferLaws X buf)
    (ins : InsertIntoBuffer B V) : Type 0 where
  pub items : V → List X
  pub size-items : (v : V) → ins.size v ≡ length (items v)
  pub insert_into_lem :
      (b : B) (v : V) (index : ℕ)
      → index + length (items v) ≤ length (laws.slots b)
      → Free (laws.slots b) index (index + length (items v))
      → (b' : B) × (ins.insert_into v index b ≡ done tt b')
        × (laws.slots b' ≡ fill (laws.slots b) index (items v))

-- The contract of `CellBuffer`: the item stands at its index, and the other indices keep theirs. It
-- holds of an index that was inserted before, too, where the trait asks for nothing.
pub record CellLaws {B S X : Type 0} {buf : Buffer B S} (laws : BufferLaws X buf)
    (cell : CellBuffer B X) : Type 0 where
  pub insert_lem :
      (b : B) (index : ℕ) (x : X)
      → index < length (laws.slots b)
      → (b' : B) × (cell.insert index x b ≡ done tt b')
        × (laws.slots b' ≡ set (laws.slots b) index (some x))

-- The contract of `Resize`: the buffer has the capacity that was asked for, and nothing is inserted in
-- it if nothing was.
pub record ResizeLaws {B S X : Type 0} {buf : Buffer B S} (laws : BufferLaws X buf)
    (resizable : Resize B) : Type 0 where
  pub length-resize : (b : B) (n : ℕ) → length (laws.slots (resizable.resize n b)) ≡ n
  pub clean-resize :
      (b : B) (n : ℕ)
      → Free (laws.slots b) 0 (length (laws.slots b))
      → Free (laws.slots (resizable.resize n b)) 0 n

-- The contract of `Drain`: an inserted item comes out and leaves its index, and the other indices keep
-- theirs.
pub record DrainLaws {B S X : Type 0} {buf : Buffer B S} (laws : BufferLaws X buf)
    (drain : Drain B X) : Type 0 where
  pub remove_lem :
      (b : B) (index : ℕ) (x : X) (rest : List X)
      → Holds (laws.slots b) index (x ∷ rest)
      → index < length (laws.slots b)
      → (b' : B) × (drain.remove index b ≡ done x b')
        × (laws.slots b' ≡ set (laws.slots b) index none)
