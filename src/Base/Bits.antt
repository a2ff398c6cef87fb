-- ===== src/Base/Bits.antt =====
-- `&` with a low mask, `|` of disjoint fields, and single bits, as arithmetic.
mod Step
mod Digit
pub use Digit.{bit_of, bit_of-bit_or, bit_of-bit_and, bit_of-pow, bit_of-not_pow, bit_of-ones}
use Step.{bit_or_step, bit_and_step}
use Prim.Native.Nat.{ℕ, zero, suc, ◌+◌, ◌-◌, ◌*◌, ◌/◌, ◌%◌, ◌^◌, ◌≤◌, ◌<◌, bit_and, bit_or}
use mathlib.Core.Path.{◌≡◌, refl, ap}
use native.Mathlib.Nat.{pow-suc, one-le-pow}
use native.Mathlib.Omega.{arith}

-- Both operations with 0, for numbers up to `limit`.
operations-zero : (limit x : ℕ) → x ≤ limit → (bit_and x 0 ≡ 0) × (bit_or x 0 ≡ x)
operations-zero limit zero _ = (refl, refl)
operations-zero zero (suc x) below = absurd (omega arith)
operations-zero (suc limit) (suc x) below =
    let half = operations-zero limit (suc x / 2) (omega arith) in
    (omega (arith, half.0, bit_and_step (suc x) 0), omega (arith, half.1, bit_or_step (suc x) 0))

pub bit_and-zero : (x : ℕ) → bit_and x 0 ≡ 0
bit_and-zero x = (operations-zero x x (omega arith)).0

pub bit_or-zero : (x : ℕ) → bit_or x 0 ≡ x
bit_or-zero x = (operations-zero x x (omega arith)).1

-- A number shifted by one more place.
double_shift : (width high : ℕ) → high * 2 ^ suc width ≡ 2 * (high * 2 ^ width)
double_shift width high = omega (arith, ap (λ p. high * p) (pow-suc 2 width))

-- `|` of a shifted number and one of at most `width` bits is their sum.
pub bit_or_fields :
    (width high low : ℕ) → low < 2 ^ width → bit_or (high * 2 ^ width) low ≡ high * 2 ^ width + low
bit_or_fields zero high low h = ground (arith, bit_or-zero high)
bit_or_fields (suc width) high low h =
    let upper = bit_or_fields width high (low / 2) (omega arith) in
    ground (arith, upper, double_shift width high, bit_or_step (high * 2 ^ suc width) low)

bit_and_fields :
    (width high low : ℕ) → low < 2 ^ width → bit_and (high * 2 ^ width + low) (2 ^ width - 1) ≡ low
bit_and_fields zero high low h = ground (arith, bit_and-zero (high * 1 + low))
bit_and_fields (suc width) high low h =
    let upper = bit_and_fields width high (low / 2) (omega arith) in
    let step = bit_and_step (high * 2 ^ suc width + low) (2 ^ suc width - 1) in
    ground (arith, upper, step, double_shift width high, pow-suc 2 width, one-le-pow width 2)

-- `&` with the mask of the `width` low bits is the remainder.
pub bit_and_mask : (width x : ℕ) → bit_and x (2 ^ width - 1) ≡ x % 2 ^ width
bit_and_mask width x =
    let split = bit_and_fields width (x / 2 ^ width) (x % 2 ^ width) in
    ground (arith, split, one-le-pow width 2)

-- Enough steps for both operands to become 0.
bit_or_swap : (limit x y : ℕ) → x ≤ limit → y ≤ limit → bit_or x y ≡ bit_or y x
bit_or_swap zero zero zero _ _ = refl
bit_or_swap zero (suc x) y below _ = absurd (omega arith)
bit_or_swap zero x (suc y) _ below = absurd (omega arith)
bit_or_swap (suc limit) x y p q =
    let half = bit_or_swap limit (x / 2) (y / 2) (omega arith) (omega arith) in
    omega (arith, half, bit_or_step x y, bit_or_step y x)

pub bit_or_comm : (x y : ℕ) → bit_or x y ≡ bit_or y x
bit_or_comm x y = bit_or_swap (x + y) x y (omega arith) (omega arith)

-- `& 0xF0`
pub bit_and_high : (x : ℕ) → bit_and x 0xF0 ≡ x / 2 ^ 4 % 2 ^ 4 * 2 ^ 4
bit_and_high x = omega (
  arith,
  bit_and_step x 0xF0,
  bit_and_step (x / 2) 0x78,
  bit_and_step (x / 2 / 2) 0x3C,
  bit_and_step (x / 2 / 2 / 2) 0x1E,
  bit_and_mask 4 (x / 2 / 2 / 2 / 2),
)
