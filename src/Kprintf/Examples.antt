-- ===== src/Kprintf/Examples.antt =====
-- The theorems about kprintf.c on single numbers.
use minios_grub_bootloader.Base.{ℕ, ◌≡◌, true, some, List, [], ◌∷◌, arith, replicate, negsuc}
use minios_grub_bootloader.Kprintf.{default, printf_number}
use minios_grub_bootloader.Tty.{Terminal, put_bytes}
use minios_grub_bootloader.Kprintf.Signed.{IsPrinted, printf_number-IsPrinted}
use minios_grub_bootloader.Kprintf.Digits.{ten}

abbrev terminal : Terminal
terminal = record { row = 0; column = 0; color = 7; buffer = replicate 2000 0; cursor = 0 }

printf_number-IsPrinted_example :
    (text : List ℕ) × ((printf_number (0xFFFFFFFE ∷ 7 ∷ []) default true 10 terminal
        ≡ some (7 ∷ [], put_bytes text terminal))
      × IsPrinted 10 (negsuc 1) text)
printf_number-IsPrinted_example =
    printf_number-IsPrinted ten 0xFFFFFFFE (7 ∷ []) terminal (omega arith) (omega arith)
