-- ===== src/Tty/Examples.antt =====
-- The theorems about tty.c on a screen whose cursor is at its last place.
use minios_grub_bootloader.Base.{ℕ, [], ◌∷◌, arith, replicate, length-replicate}
use minios_grub_bootloader.Tty.{Terminal, tty_putchar, tty_puts}
use minios_grub_bootloader.Tty.Screen.{IsValid, IsPut, tty_putchar-IsPut, tty_puts-IsValid}

abbrev at_end : Terminal
at_end = record { row = 24; column = 79; color = 7; buffer = replicate 2000 0; cursor = 1999 }

at_end-IsValid : IsValid at_end
at_end-IsValid = record {
  row = omega arith;
  column = omega arith;
  cells = length-replicate {A = ℕ} 2000 0;
}

tty_putchar-IsPut_example : IsPut 65 at_end (tty_putchar 65 at_end)
tty_putchar-IsPut_example = tty_putchar-IsPut 65 at_end at_end-IsValid (omega arith)

tty_puts-IsValid_example : IsValid (tty_puts (65 ∷ 10 ∷ 66 ∷ []) at_end)
tty_puts-IsValid_example = tty_puts-IsValid (65 ∷ 10 ∷ 66 ∷ []) at_end at_end-IsValid
