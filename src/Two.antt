-- ===== src/Two.antt =====
-- The arrays of two elements that the queue holds, `[LoomUnsafeCell<B>; 2]` and
-- `[CachePadded<AtomicUsize>; 2]` of src/queue.rs, with the access by an index that the code keeps
-- below two.
use swap_buffer_queue.Prelude.{ℕ, ◌-◌, ◌<◌, ◌≡◌, ◌==◌, if◌then◌else◌, arith}

pub record Two {ℓ} (A : Type ℓ) : Type ℓ where
  pub first : A
  pub second : A

module _ {ℓ} {A : Type ℓ} where
  unfoldable pub at : ℕ → Two A → A
  at i two = if i == 0 then two.first else two.second

  unfoldable pub put : ℕ → A → Two A → Two A
  put i a two = if i == 0 then record two { first = a } else record two { second = a }

module _ {A : Type 0} where
  pub at-put_self : (i : ℕ) (a : A) (two : Two A) → at i (put i a two) ≡ a
  unfolding at put
  at-put_self i a two = ground arith

  pub at-put_other :
      (i : ℕ) (a : A) (two : Two A) → i < 2 → at (1 - i) (put i a two) ≡ at (1 - i) two
  unfolding at put
  at-put_other i a two small = ground arith

  -- The element at `i` is the other one of `1 - i`.
  pub at-put_back : (i : ℕ) (a : A) (two : Two A) → i < 2 → at i (put (1 - i) a two) ≡ at i two
  unfolding at put
  at-put_back i a two small = ground arith

  pub put-at : (i : ℕ) (two : Two A) → put i (at i two) two ≡ two
  unfolding at put
  put-at i two = ground arith
