-- ===== src/Word/Enqueuing/Laws.antt =====
-- What the fields of the enqueuing word are, and how each operation changes them.
use Prim.Native.Nat.{bit_and}
use swap_buffer_queue.Prelude.{
  ℕ, ◌+◌, ◌-◌, ◌*◌, ◌/◌, ◌%◌, ◌^◌, ◌<◌, ◌≡◌, Bool, true, false, none, some, leb, ltb, if◌then◌else◌,
  arith,
}
use swap_buffer_queue.Prelude.Bits.{bit_and_low, bit_or_high, bit_and_high, zero-bit_or}
use swap_buffer_queue.Word.{shl}
use swap_buffer_queue.Word.Enqueuing.{
  EnqueuingCapacity, new, buffer_index, remaining_capacity, is_closed, try_reserve, with_closed,
  close, reopen, check_overflow,
}

-- A word with these fields.
abbrev pub word_of : ℕ → ℕ → Bool → EnqueuingCapacity
word_of index capacity is_shut = index + capacity * 2 + (if is_shut then 2 ^ 63 else 0)

-- The fields fit their bits.
abbrev pub Fits : ℕ → ℕ → Type 0
Fits index capacity = (index < 2) × (capacity < 2 ^ 62)

bit_and-one : (w : ℕ) → bit_and w 1 ≡ w % 2
bit_and-one w = ground (arith, bit_and_low 1 (w / 2) (w % 2) (omega arith))

module _ (index capacity : ℕ) (shut : Bool) (fits : Fits index capacity) where
  pub buffer_index-word_of : buffer_index (word_of index capacity shut) ≡ index
  unfolding buffer_index
  buffer_index-word_of = ground (arith, bit_and-one (word_of index capacity shut))

  pub remaining_capacity-word_of : remaining_capacity (word_of index capacity shut) ≡ capacity
  unfolding remaining_capacity
  remaining_capacity-word_of = ground (
    arith,
    bit_and_low 63 0 (index + capacity * 2) (omega arith),
    bit_and_low 63 1 (index + capacity * 2) (omega arith),
  )

  pub is_closed-word_of : is_closed (word_of index capacity shut) ≡ shut
  unfolding is_closed
  is_closed-word_of = ground (
    arith,
    bit_and_high 63 0 (index + capacity * 2) 1 (omega arith),
    bit_and_high 63 1 (index + capacity * 2) 1 (omega arith),
  )

  -- With an index below two and a capacity below `2 ^ 62`, an open word lets a reservation of less
  -- than `2 ^ 63` through just if it is at most the capacity, takes it off the capacity, and keeps the
  -- other fields.
  pub try_reserve-word_of :
      (size : ℕ)
      → size < 2 ^ 63
      → try_reserve (word_of index capacity false) size
        ≡ (if leb size capacity then some (word_of index (capacity - size) false) else none)
  unfolding try_reserve
  try_reserve-word_of size h = ground arith

  -- Of two words whose indices are below two and whose capacities are below `2 ^ 62`, an open one that
  -- takes the flag of the other keeps its own index and capacity.
  pub with_closed-word_of :
      (other_index other : ℕ)
      → Fits other_index other
      → with_closed (word_of index capacity false) (word_of other_index other shut)
        ≡ word_of index capacity shut
  unfolding with_closed
  with_closed-word_of other_index other h = ground (
    arith,
    bit_and_high 63 0 (other_index + other * 2) 1 (omega arith),
    bit_and_high 63 1 (other_index + other * 2) 1 (omega arith),
    bit_or_high 63 0 (index + capacity * 2) 0 (omega arith),
    bit_or_high 63 0 (index + capacity * 2) 1 (omega arith),
  )

  pub close-word_of : close (word_of index capacity shut) ≡ word_of index capacity true
  unfolding close
  close-word_of = ground (
    arith,
    bit_or_high 63 0 (index + capacity * 2) 1 (omega arith),
    bit_or_high 63 1 (index + capacity * 2) 1 (omega arith),
  )

  pub reopen-word_of : reopen (word_of index capacity shut) ≡ word_of index capacity false
  unfolding reopen
  reopen-word_of = ground (
    arith,
    bit_and_low 63 0 (index + capacity * 2) (omega arith),
    bit_and_low 63 1 (index + capacity * 2) (omega arith),
  )

module _ (index capacity : ℕ) (fits : Fits index capacity) where
  pub new-word_of : new index capacity ≡ some (word_of index capacity false)
  unfolding new
  new-word_of = ground (arith, bit_or_high 1 0 index capacity (omega arith), zero-bit_or capacity)

  pub check_overflow-Fits : check_overflow capacity ≡ ltb capacity (2 ^ 62 - 1)
  unfolding check_overflow
  check_overflow-Fits = ground arith

  -- A word that is made of a buffer index below two and a capacity below `2 ^ 62` is open and gives
  -- both back; once it is closed it is so still, and reopening takes it back to what it was.
  pub enqueuing_fields :
      (w : EnqueuingCapacity) × (new index capacity ≡ some w)
      × (buffer_index w ≡ index)
      × (remaining_capacity w ≡ capacity)
      × (is_closed w ≡ false)
      × (is_closed (close w) ≡ true)
      × (buffer_index (close w) ≡ index)
      × (remaining_capacity (close w) ≡ capacity)
      × (reopen (close w) ≡ w)
  enqueuing_fields =
      let shut : close (word_of index capacity false) ≡ word_of index capacity true =
        close-word_of index capacity false fits in
      (
        word_of index capacity false,
        new-word_of,
        buffer_index-word_of index capacity false fits,
        remaining_capacity-word_of index capacity false fits,
        is_closed-word_of index capacity false fits,
        rw shut (is_closed-word_of index capacity true fits),
        rw shut (buffer_index-word_of index capacity true fits),
        rw shut (remaining_capacity-word_of index capacity true fits),
        rw shut (reopen-word_of index capacity true fits),
      )

-- With an index below two and a capacity below `2 ^ 62`, an open word answers a reservation of any
-- size by the size modulo `2 ^ 63`, since the shift drops the highest bit: it refuses just if that is
-- more than the capacity, and else takes that off the capacity and keeps the other fields. A size
-- below `2 ^ 63` is therefore reserved as it is, and one of `2 ^ 63` or more as a smaller one.
pub try_reserve-wrap :
    (index capacity size : ℕ)
    → Fits index capacity
    → try_reserve (word_of index capacity false) size ≡ (
        if leb (size % 2 ^ 63) capacity
        then some (word_of index (capacity - size % 2 ^ 63) false)
        else none)
unfolding try_reserve
try_reserve-wrap index capacity size fits =
    let shifted : shl size 1 ≡ shl (size % 2 ^ 63) 1 = omega arith in
    rw shifted (try_reserve-word_of index capacity false fits (size % 2 ^ 63) (omega arith))
