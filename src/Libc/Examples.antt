-- ===== src/Libc/Examples.antt =====
-- The theorems about the C library on short strings and blocks.
use minios_grub_bootloader.Base.{
  ℕ, ◌+◌, ◌%◌, ◌≤◌, ◌<◌, ◌≡◌, ◌↔◌, ◌⊎◌, none, some, [], ◌∷◌, arith, pos, negsuc,
}
use minios_grub_bootloader.Libc.Memory.{Bytes, memcmp, memmove}
use minios_grub_bootloader.Libc.Memory.Copy.{memmove_lem}
use minios_grub_bootloader.Libc.Memory.Compare.{memcmp_lem}
use minios_grub_bootloader.Libc.Strings.{CString, strcasecmp, strtok}
use minios_grub_bootloader.Libc.Strings.Tokens.{Cuts, strtok-Cuts}
use minios_grub_bootloader.Libc.Strings.Order.{strcasecmp-zero_iff}

-- The byte at an address is the address.
abbrev ramp : Bytes
ramp a = a % 256

memmove_lem_example : memmove 12 10 8 ramp 14 ≡ 12
memmove_lem_example = memmove_lem 12 10 8 ramp 14

memcmp_lem_example :
    ((memcmp 20 10 4 ramp ≡ pos 0) ↔ ((j : ℕ) → j < 4 → ramp (10 + j) ≤ ramp (20 + j)))
    × ((memcmp 20 10 4 ramp ≡ pos 0) ⊎ (memcmp 20 10 4 ramp ≡ negsuc 0))
memcmp_lem_example = memcmp_lem 20 10 4 ramp

abbrev upper : CString
upper = 65 ∷ []

abbrev lower : CString
lower = 97 ∷ []

strcasecmp-zero_iff_example : (strcasecmp upper lower ≡ pos 0) ↔ (upper ≡ lower)
strcasecmp-zero_iff_example =
    strcasecmp-zero_iff upper lower (omega arith, record {}) (omega arith, record {})
      (omega arith, record {}) (omega arith, record {})

-- "a/b"
abbrev path : CString
path = 97 ∷ 47 ∷ 98 ∷ []

strtok-Cuts_example : Cuts (47 ∷ []) path (strtok (some path) (47 ∷ []) none)
strtok-Cuts_example = strtok-Cuts path (47 ∷ []) none
