-- ===== src/Prelude/Bits.antt =====
-- `&` and `|` of the words that the queue packs, as arithmetic: masks of low bits, a flag in one
-- bit, and a field above other bits.
use Prim.Native.Nat.{
  ℕ, zero, suc, ◌+◌, ◌-◌, ◌*◌, ◌/◌, ◌%◌, ◌^◌, ◌≤◌, ◌<◌, min, max, bit_and, bit_or, digits,
  bit_and-bitwise, bit_or-bitwise,
}
use mathlib.Core.Path.{◌≡◌, refl, ap}
use native.Mathlib.Nat.{pow-suc, one-le-pow}
use native.Mathlib.Omega.{arith}

-- The native operations recur on digits with fuel: any fuel from the first word on is enough.
module _ (rest : ℕ → ℕ) (digit : ℕ → ℕ → ℕ) where
  digits_enough : (m n a b : ℕ) → a ≤ m → a ≤ n → digits rest digit m a b ≡ digits rest digit n a b
  digits_enough zero zero a b h k = refl
  digits_enough zero (suc n) zero b h k = refl
  digits_enough zero (suc n) (suc a) b h k = absurd (omega arith)
  digits_enough (suc m) zero zero b h k = refl
  digits_enough (suc m) zero (suc a) b h k = absurd (omega arith)
  digits_enough (suc m) (suc n) zero b h k = refl
  digits_enough (suc m) (suc n) (suc a) b h k =
      rw (digits_enough m n (suc a / 2) (b / 2) (omega arith) (omega arith))

zero-bit_and : (b : ℕ) → bit_and 0 b ≡ 0
zero-bit_and b = bit_and-bitwise 0 b

pub zero-bit_or : (b : ℕ) → bit_or 0 b ≡ b
zero-bit_or b = bit_or-bitwise 0 b

-- The lowest bit, and the bits above it.
bit_and-halves : (a b : ℕ) → bit_and a b ≡ bit_and (a / 2) (b / 2) * 2 + min (a % 2) (b % 2)
bit_and-halves zero b = omega (arith, zero-bit_and b, zero-bit_and (b / 2))
bit_and-halves (suc a) b = omega (
  arith,
  bit_and-bitwise (suc a) b,
  bit_and-bitwise (suc a / 2) (b / 2),
  digits_enough (λ c. zero) min a (suc a / 2) (suc a / 2) (b / 2) (omega arith) (omega arith),
)

bit_or-halves : (a b : ℕ) → bit_or a b ≡ bit_or (a / 2) (b / 2) * 2 + max (a % 2) (b % 2)
bit_or-halves zero b = omega (arith, zero-bit_or b, zero-bit_or (b / 2))
bit_or-halves (suc a) b = omega (
  arith,
  bit_or-bitwise (suc a) b,
  bit_or-bitwise (suc a / 2) (b / 2),
  digits_enough (λ c. c) max a (suc a / 2) (suc a / 2) (b / 2) (omega arith) (omega arith),
)

bit_or-zero_below : (bound a : ℕ) → a ≤ bound → bit_or a 0 ≡ a
bit_or-zero_below bound zero h = refl
bit_or-zero_below zero (suc a) h = absurd (omega arith)
bit_or-zero_below (suc bound) (suc a) h =
    omega (arith, bit_or-halves (suc a) 0, bit_or-zero_below bound (suc a / 2) (omega arith))

bit_and-zero_below : (bound a : ℕ) → a ≤ bound → bit_and a 0 ≡ 0
bit_and-zero_below bound zero h = refl
bit_and-zero_below zero (suc a) h = absurd (omega arith)
bit_and-zero_below (suc bound) (suc a) h =
    omega (arith, bit_and-halves (suc a) 0, bit_and-zero_below bound (suc a / 2) (omega arith))

pub bit_or-zero : (a : ℕ) → bit_or a 0 ≡ a
bit_or-zero a = bit_or-zero_below a a (omega arith)

pub bit_and-zero : (a : ℕ) → bit_and a 0 ≡ 0
bit_and-zero a = bit_and-zero_below a a (omega arith)

double_pow : (q k : ℕ) → q * 2 ^ suc k ≡ 2 * (q * 2 ^ k)
double_pow q k = omega (arith, ap (λ (t : ℕ). q * t) (pow-suc 2 k))

-- The low bits under a mask of ones.
pub bit_and_low : (k u r : ℕ) → r < 2 ^ k → bit_and (u * 2 ^ k + r) (2 ^ k - 1) ≡ r
bit_and_low zero u r h = rw bit_and-zero (omega arith)
bit_and_low (suc k) u r h = ground (
  arith,
  bit_and-halves (u * 2 ^ suc k + r) (2 ^ suc k - 1),
  double_pow u k,
  double_pow 1 k,
  one-le-pow k 2,
  bit_and_low k u (r / 2) (omega (arith, double_pow 1 k)),
)

-- A field above `k` low bits is joined to the low bits and to a field in its own place.
pub bit_or_high :
    (k u r q : ℕ) → r < 2 ^ k → bit_or (u * 2 ^ k + r) (q * 2 ^ k) ≡ bit_or u q * 2 ^ k + r
bit_or_high zero u r q h = ground (arith)
bit_or_high (suc k) u r q h = ground (
  arith,
  bit_or-halves (u * 2 ^ suc k + r) (q * 2 ^ suc k),
  double_pow u k,
  double_pow q k,
  double_pow 1 k,
  double_pow (bit_or u q) k,
  bit_or_high k u (r / 2) q (omega (arith, double_pow 1 k)),
)

pub bit_and_high :
    (k u r q : ℕ) → r < 2 ^ k → bit_and (u * 2 ^ k + r) (q * 2 ^ k) ≡ bit_and u q * 2 ^ k
bit_and_high zero u r q h = ground (arith)
bit_and_high (suc k) u r q h = ground (
  arith,
  bit_and-halves (u * 2 ^ suc k + r) (q * 2 ^ suc k),
  double_pow u k,
  double_pow q k,
  double_pow 1 k,
  double_pow (bit_and u q) k,
  bit_and_high k u (r / 2) q (omega (arith, double_pow 1 k)),
)
