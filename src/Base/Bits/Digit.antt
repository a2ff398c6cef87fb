-- ===== src/Base/Bits/Digit.antt =====
-- Single bits of the bit operations: bit `j` of `a` is `a / 2 ^ j % 2`.
use Prim.Native.Nat.{ℕ, zero, suc, ◌-◌, ◌/◌, ◌%◌, ◌^◌, ◌<◌, bit_and, bit_or, min, max}
use mathlib.Core.Path.{◌≡◌, refl, ap, ap₂, ◌∙◌, sym}
use mathlib.Core.Bool.{Bool, true, ◌&&◌}
use native.Mathlib.Nat.{pow-suc, mul_comm, div-div-eq-div-mul}
use native.Mathlib.Omega.{arith}
use minios_grub_bootloader.Base.Tests.{◌==◌, if◌then◌else◌, eq_of_test}
use minios_grub_bootloader.Base.Bits.Step.{bit_or_step, bit_and_step}

abbrev pub bit_of : ℕ → ℕ → ℕ
bit_of a j = a / 2 ^ j % 2

bit_of-suc : (a j : ℕ) → bit_of a (suc j) ≡ bit_of (a / 2) j
bit_of-suc a j =
    ap (λ t. t % 2)
      (ap (λ t. a / t) (pow-suc 2 j ∙ mul_comm (2 ^ j) 2) ∙ sym (div-div-eq-div-mul a 2 (2 ^ j)))

pub bit_of-bit_or : (j a b : ℕ) → bit_of (bit_or a b) j ≡ max (bit_of a j) (bit_of b j)
bit_of-bit_or zero a b = omega (arith, bit_or_step a b)
bit_of-bit_or (suc j) a b =
    let half : bit_or a b / 2 ≡ bit_or (a / 2) (b / 2) = omega (arith, bit_or_step a b) in
    bit_of-suc (bit_or a b) j
    ∙ ap (λ t. bit_of t j) half
    ∙ bit_of-bit_or j (a / 2) (b / 2)
    ∙ sym (ap₂ max (bit_of-suc a j) (bit_of-suc b j))

pub bit_of-bit_and : (j a b : ℕ) → bit_of (bit_and a b) j ≡ min (bit_of a j) (bit_of b j)
bit_of-bit_and zero a b = omega (arith, bit_and_step a b)
bit_of-bit_and (suc j) a b =
    let half : bit_and a b / 2 ≡ bit_and (a / 2) (b / 2) = omega (arith, bit_and_step a b) in
    bit_of-suc (bit_and a b) j
    ∙ ap (λ t. bit_of t j) half
    ∙ bit_of-bit_and j (a / 2) (b / 2)
    ∙ sym (ap₂ min (bit_of-suc a j) (bit_of-suc b j))

-- Over a small range every value is checked by evaluation.
passes : (ℕ → Bool) → ℕ → Bool
passes test zero = true
passes test (suc count) = passes test count && test count

passes-at :
    (test : ℕ → Bool) (count : ℕ) → passes test count ≡ true → (x : ℕ) → x < count → test x ≡ true
unfolding passes
passes-at test zero all x small = absurd (omega arith)
passes-at test (suc count) all x small =
    let same : x ≡ count → test x ≡ test count = λ e. ap test e in
    let before : passes test count ≡ true → x < count → test x ≡ true =
      λ h lt. passes-at test count h x lt in
    ground (arith, same, before)

abbrev one_bit : ℕ → ℕ → Bool
one_bit o j = bit_of (2 ^ o) j == (if o == j then 1 else 0)

abbrev all_but_one : ℕ → ℕ → Bool
all_but_one o j = bit_of (2 ^ 32 - 1 - 2 ^ o) j == (if o == j then 0 else 1)

one_bit_table : passes (λ o. passes (one_bit o) 32) 32 ≡ true
unfolding passes
one_bit_table = refl

all_but_one_table : passes (λ o. passes (all_but_one o) 32) 32 ≡ true
unfolding passes
all_but_one_table = refl

-- `1U << o`
pub bit_of-pow : (o j : ℕ) → o < 32 → j < 32 → bit_of (2 ^ o) j ≡ (if o == j then 1 else 0)
bit_of-pow o j ho hj =
    eq_of_test _ _
      (passes-at (one_bit o) 32 (passes-at (λ k. passes (one_bit k) 32) 32 one_bit_table o ho) j hj)

-- `~(1U << o)`
pub bit_of-not_pow :
    (o j : ℕ) → o < 32 → j < 32 → bit_of (2 ^ 32 - 1 - 2 ^ o) j ≡ (if o == j then 0 else 1)
bit_of-not_pow o j ho hj = eq_of_test _ _ (
    passes-at (all_but_one o) 32
      (passes-at (λ k. passes (all_but_one k) 32) 32 all_but_one_table o ho) j hj)

abbrev ones_at : ℕ → Bool
ones_at j = bit_of 0xFFFFFFFF j == 1

ones_table : passes ones_at 32 ≡ true
unfolding passes
ones_table = refl

pub bit_of-ones : (j : ℕ) → j < 32 → bit_of 0xFFFFFFFF j ≡ 1
bit_of-ones j h = eq_of_test _ _ (passes-at ones_at 32 ones_table j h)
