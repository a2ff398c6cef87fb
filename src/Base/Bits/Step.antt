-- ===== src/Base/Bits/Step.antt =====
-- `bit_or` and `bit_and` computed from the bottom: the lowest digit, and the same operation on the
-- halves. The library gives both as `bitwise`, which spends the first number as fuel.
use Prim.Native.Nat.{
  ℕ, zero, suc, ◌+◌, ◌*◌, ◌/◌, ◌%◌, ◌≤◌, min, max, bit_and, bit_or, digits, bitwise,
  bit_and-bitwise, bit_or-bitwise,
}
use mathlib.Core.Path.{◌≡◌, refl}
use native.Mathlib.Omega.{arith}

-- Fuel beyond the number changes nothing.
more_fuel :
    (end : ℕ → ℕ) (digit : ℕ → ℕ → ℕ) (x s t y : ℕ)
    → x ≤ s
    → s ≤ t
    → digits end digit t x y ≡ digits end digit s x y
more_fuel end digit zero zero zero y _ _ = refl
more_fuel end digit zero zero (suc t) y _ _ = refl
more_fuel end digit zero (suc s) zero y _ st = absurd (omega arith)
more_fuel end digit zero (suc s) (suc t) y _ _ = refl
more_fuel end digit (suc x) zero t y xs _ = absurd (omega arith)
more_fuel end digit (suc x) (suc s) zero y _ st = absurd (omega arith)
more_fuel end digit (suc x) (suc s) (suc t) y xs st =
    let halves = more_fuel end digit (suc x / 2) s t (y / 2) (omega arith) (omega arith) in
    rw halves refl

bitwise-halves :
    (end : ℕ → ℕ) (digit : ℕ → ℕ → ℕ) (x y : ℕ)
    → bitwise end digit (suc x) y
      ≡ bitwise end digit (suc x / 2) (y / 2) * 2 + digit (suc x % 2) (y % 2)
bitwise-halves end digit x y =
    let half = suc x / 2 in
    let fuel = more_fuel end digit half half x (y / 2) (omega arith) (omega arith) in
    omega (arith, fuel)

pub bit_and_step : (x y : ℕ) → bit_and x y ≡ bit_and (x / 2) (y / 2) * 2 + min (x % 2) (y % 2)
bit_and_step zero y = simp bit_and-bitwise (omega arith)
bit_and_step (suc x) y = simp bit_and-bitwise (bitwise-halves (λ rest. 0) min x y)

pub bit_or_step : (x y : ℕ) → bit_or x y ≡ bit_or (x / 2) (y / 2) * 2 + max (x % 2) (y % 2)
bit_or_step zero y = simp bit_or-bitwise (omega arith)
bit_or_step (suc x) y = simp bit_or-bitwise (bitwise-halves (λ rest. rest) max x y)
