-- ===== src/Buffer/Insert.antt =====
-- The values of src/buffer.rs that go into a `CellBuffer`: arrays, and iterators wrapped in
-- `ValueIter`. Both insert their items one by one through `CellBuffer::insert`.
pub mod Laws
use swap_buffer_queue.Prelude.{ℕ, zero, suc, ◌+◌, List, [], ◌∷◌, Option, none, some, length}
use swap_buffer_queue.Prelude.Run.{Cmd, ◌>>=◌, pure, unwrap}
use swap_buffer_queue.Buffer.{CellBuffer, InsertIntoBuffer}

-- An exact-size iterator: the lengths that it reports when `size` and when `insert_into` ask for it,
-- which nothing forces to be right or the same, and the items that it yields.
pub record ValueIter (T : Type 0) : Type 0 where
  pub len : ℕ
  pub len_again : ℕ
  pub rest : List T

-- `into_value_iter` of a list.
unfoldable pub into_value_iter : {T : Type 0} → List T → ValueIter T
into_value_iter xs = record { len = length xs; len_again = length xs; rest = xs }

unfoldable pub next : {T : Type 0} → List T → Option T
next [] = none
next (x ∷ xs) = some x

abbrev pub rest_of : {T : Type 0} → List T → List T
rest_of [] = []
rest_of (x ∷ xs) = xs

module _ {B T : Type 0} (cell : CellBuffer B T) where
  open cell use {insert}

  -- `for i in index..(index + self.0.len())`, with the number of rounds left; a `None` panics.
  unfoldable pub insert_iter : (i rounds : ℕ) → List T → Cmd B (Unit {0})
  unfolding next
  insert_iter i zero items = pure tt
  insert_iter i (suc rounds) items = do
    x ← unwrap (next items)
    _ ← insert i x
    insert_iter (suc i) rounds (rest_of items)

  -- `for (i, elt) in self.into_iter().enumerate()`
  unfoldable pub insert_array : (index i : ℕ) → List T → Cmd B (Unit {0})
  insert_array index i [] = pure tt
  insert_array index i (elt ∷ elts) = do _ ← insert (index + i) elt; insert_array index (suc i) elts

  abbrev pub value_iter : InsertIntoBuffer B (ValueIter T)
  value_iter = record {
    size = λ v. v.len;
    insert_into = λ v index. insert_iter index v.len_again v.rest;
  }

  -- `[T; N]`, as the list of its elements.
  abbrev pub array : InsertIntoBuffer B (List T)
  array = record { size = λ v. length v; insert_into = λ v index. insert_array index 0 v }
