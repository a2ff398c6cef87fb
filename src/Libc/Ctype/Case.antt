-- ===== src/Libc/Ctype/Case.antt =====
-- What the two case functions do to each byte.
use minios_grub_bootloader.Base.{ℕ, ◌+◌, ◌-◌, ◌≤◌, ◌<◌, ◌≡◌, arith, ◌⊎◌, leb, ◌&&◌, if◌then◌else◌}
use minios_grub_bootloader.Libc.Ctype.{tolower, toupper}

-- `toupper` moves a lower-case letter to its capital, leaves every other byte alone, and its
-- result is never a lower-case letter, so that applying it twice is applying it once.
pub toupper_lem :
    (c : ℕ)
    → (toupper c ≡ (if leb b'a' c && leb c b'z' then c - 32 else c))
      × ((toupper c < b'a') ⊎ (b'z' < toupper c))
      × (toupper (toupper c) ≡ toupper c)
unfolding toupper
toupper_lem c = (ground arith, ground arith, ground arith)

-- `tolower` leaves each capital letter as it is, and moves each lower-case letter past 'z'.
pub tolower_keeps_capitals :
    (c : ℕ) → (b'A' ≤ c → c ≤ b'Z' → tolower c ≡ c) × (b'a' ≤ c → c ≤ b'z' → tolower c ≡ c + 32)
unfolding tolower
tolower_keeps_capitals c = ground arith

-- Two bytes of ASCII have one image under `tolower` exactly when they are the same byte.
pub tolower-injective : (a b : ℕ) → a < 128 → b < 128 → tolower a ≡ tolower b → a ≡ b
unfolding tolower
tolower-injective a b ha hb e = ground arith
