-- ===== src/Kprintf/Signed.antt =====
-- What a signed conversion prints.
use minios_grub_bootloader.Base.{
  ℤ, pos, negsuc, ℕ, ◌+◌, ◌-◌, ◌*◌, ◌^◌, ◌<◌, ◌≡◌, refl, ap, ◌∙◌, ◌≢◌, inl, inr, true, false, some,
  List, ◌∷◌, arith, ltb, if◌then◌else◌, Bool-cases,
}
use minios_grub_bootloader.Tty.{Terminal, put_bytes}
use minios_grub_bootloader.Kprintf.{printf_number, default, read_number, magnitude, number_text}
use minios_grub_bootloader.Kprintf.Digits.{
  IsRadix, eight, ten, sixteen, IsNumeral, number_text-IsNumeral,
}

-- The value of a word as an `int`.
abbrev pub int_of : ℕ → ℤ
int_of w = if ltb w (2 ^ 31) then pos w else negsuc (2 ^ 32 - 1 - w)

-- The text of an integer.
pub data IsPrinted (radix : ℕ) : ℤ → List ℕ → Type 0 where
  plain : {n : ℕ} {text : List ℕ} → IsNumeral radix n text → IsPrinted radix (pos n) text
  minus :
      {n : ℕ} {text : List ℕ}
      → IsNumeral radix (n + 1) text
      → IsPrinted radix (negsuc n) (45 ∷ text)

magnitude_nonnegative : (w : ℕ) → w < 2 ^ 31 → magnitude 32 w ≡ (w, false)
unfolding magnitude
magnitude_nonnegative w h = ground arith

magnitude_negative : (w : ℕ) → w < 2 ^ 32 → 2 ^ 31 < w → magnitude 32 w ≡ (2 ^ 32 - 1 - w + 1, true)
unfolding magnitude
magnitude_negative w h l = ground arith

printf_number-number_text :
    (radix w : ℕ) (args : List ℕ) (t : Terminal) {text : List ℕ}
    → number_text (magnitude 32 w) radix ≡ some text
    → printf_number (w ∷ args) default true radix t ≡ some (args, put_bytes text t)
unfolding printf_number read_number
printf_number-number_text radix w args t e = rw (printf_number, e) refl

-- For a radix of `kprintf` and every word but the least `int`, the signed conversion of a default
-- length prints the numeral of the word as an `int`, with a minus sign in front if that is
-- negative, and moves on by one argument.
pub printf_number-IsPrinted :
    {radix : ℕ}
    → IsRadix radix
    → (w : ℕ) (args : List ℕ) (t : Terminal) → w < 2 ^ 32
    → w ≢ 2 ^ 31
    → (text : List ℕ) × ((printf_number (w ∷ args) default true radix t
          ≡ some (args, put_bytes text t))
        × IsPrinted radix (int_of w) text)
printf_number-IsPrinted {radix} r w args t h ne = elim (Bool-cases (ltb w (2 ^ 31))) [
  | inl nonnegative ↦
      let n = number_text-IsNumeral r w false (below r h) in
      let e = magnitude_nonnegative w (ground arith) in
      (
        n.0,
        (
          printf_number-number_text radix w args t (ap (λ m. number_text m radix) e ∙ n.1.0),
          rw nonnegative (plain n.1.1),
        ),
      )
  | inr negative ↦
      let n = number_text-IsNumeral r (2 ^ 32 - 1 - w + 1) true (below r (ground arith)) in
      let e = magnitude_negative w h (ground arith) in
      (
        45 ∷ n.0,
        (
          printf_number-number_text radix w args t (ap (λ m. number_text m radix) e ∙ n.1.0),
          rw negative (minus n.1.1),
        ),
      )
]
  where
    below : {k n : ℕ} → IsRadix k → n < 2 ^ 32 → n < k * 2 ^ 32
    below eight l = omega arith
    below ten l = omega arith
    below sixteen l = omega arith
