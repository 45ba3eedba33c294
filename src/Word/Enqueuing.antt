-- ===== src/Word/Enqueuing.antt =====
-- `EnqueuingCapacity` of src/queue.rs: the closed flag in bit 63, the remaining capacity in bits 1 to
-- 62, the index of the enqueuing buffer in bit 0.
pub mod Laws
use Prim.Native.Nat.{bit_and, bit_or}
use swap_buffer_queue.Prelude.{ℕ, ◌-◌, Bool, not, Option, none, some, ltb, leb, ◌==◌, if◌then◌else◌}
use swap_buffer_queue.Word.{usize_max, shl, shr, bit_not, closed_flag}

abbrev pub EnqueuingCapacity : Type 0
EnqueuingCapacity = ℕ

-- `none` is a failed assertion.
unfoldable pub new : ℕ → ℕ → Option EnqueuingCapacity
new buffer_index capacity =
    if ltb (shl capacity 1) closed_flag then some (bit_or buffer_index (shl capacity 1)) else none

unfoldable pub buffer_index : EnqueuingCapacity → ℕ
buffer_index word = bit_and word 1

unfoldable pub remaining_capacity : EnqueuingCapacity → ℕ
remaining_capacity word = shr (bit_and word (bit_not closed_flag)) 1

unfoldable pub is_closed : EnqueuingCapacity → Bool
is_closed word = not (bit_and word closed_flag == 0)

-- `checked_sub`
abbrev checked_sub : ℕ → ℕ → Option ℕ
checked_sub a b = if leb b a then some (a - b) else none

unfoldable pub try_reserve : EnqueuingCapacity → ℕ → Option EnqueuingCapacity
try_reserve word size = checked_sub word (shl size 1)

unfoldable pub with_closed : EnqueuingCapacity → EnqueuingCapacity → EnqueuingCapacity
with_closed word enqueuing = bit_or word (bit_and enqueuing closed_flag)

-- What `fetch_or` and `fetch_and` leave in the atomic word.
unfoldable pub close : ℕ → ℕ
close atomic = bit_or atomic closed_flag

unfoldable pub reopen : ℕ → ℕ
reopen atomic = bit_and atomic (bit_not closed_flag)

-- Whether the assertion on a capacity holds.
unfoldable pub check_overflow : ℕ → Bool
check_overflow capacity = ltb capacity (shr usize_max 2)
