-- ===== src/Word.antt =====
-- The two packed words of src/queue.rs: `EnqueuingCapacity` and `DequeuingLength`, over a `usize`
-- of 64 bits. A shift to the left drops what leaves the word, as in a build without overflow checks
-- (a shift by one is never checked).
pub mod Enqueuing
pub mod Dequeuing
use swap_buffer_queue.Prelude.{ℕ, ◌+◌, ◌-◌, ◌*◌, ◌/◌, ◌%◌, ◌^◌}

abbrev pub usize_mod : ℕ
usize_mod = 2 ^ 64

abbrev pub usize_max : ℕ
usize_max = 2 ^ 64 - 1

abbrev pub shl : ℕ → ℕ → ℕ
shl x k = x * 2 ^ k % usize_mod

abbrev pub shr : ℕ → ℕ → ℕ
shr x k = x / 2 ^ k

-- `!x`
abbrev pub bit_not : ℕ → ℕ
bit_not x = usize_max - x

abbrev pub closed_flag : ℕ
closed_flag = shr usize_max 1 + 1

abbrev pub dequeuing_locked : ℕ
dequeuing_locked = usize_max

-- `a + b` and `a - b` of a build without overflow checks, and of the atomic operations.
abbrev pub add_usize : ℕ → ℕ → ℕ
add_usize a b = (a + b) % usize_mod

abbrev pub sub_usize : ℕ → ℕ → ℕ
sub_usize a b = (a + usize_mod - b) % usize_mod
