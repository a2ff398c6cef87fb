-- ===== src/Libc/Strings/Order.antt =====
-- When the comparisons answer 0.
use minios_grub_bootloader.Base.{ℕ, zero, suc, ◌<◌, ◌≡◌, refl, ◌↔◌, [], ◌∷◌, arith, take, pos}
use minios_grub_bootloader.Libc.Ctype.Case.{tolower-injective}
use minios_grub_bootloader.Libc.Strings.{CString, IsText, strcmp, strncmp, strcasecmp}

-- The bytes of a string are ASCII codes.
abbrev pub IsAscii : CString → Type 0
IsAscii [] = Unit {0}
IsAscii (c ∷ s) = (c < 128) × IsAscii s

-- On strings without a NUL inside, `strcmp` answers 0 exactly on equal strings.
pub strcmp-zero_iff : (s t : CString) → IsText s → IsText t → (strcmp s t ≡ pos 0) ↔ (s ≡ t)
unfolding strcmp
strcmp-zero_iff [] [] p q = ground arith
strcmp-zero_iff [] (b ∷ t) p q = ground arith
strcmp-zero_iff (a ∷ s) [] p q = ground arith
strcmp-zero_iff (a ∷ s) (b ∷ t) p q = ground (arith, strcmp-zero_iff s t p.1 q.1)

-- On strings without a NUL inside, `strncmp` answers 0 exactly if their first `n` bytes, up to the
-- end, are the same.
pub strncmp-zero_iff :
    (s t : CString) (n : ℕ) → IsText s → IsText t → (strncmp s t n ≡ pos 0) ↔ (take n s ≡ take n t)
unfolding strncmp
strncmp-zero_iff s t zero p q = ground arith
strncmp-zero_iff [] [] (suc n) p q = ground arith
strncmp-zero_iff [] (b ∷ t) (suc n) p q = ground arith
strncmp-zero_iff (a ∷ s) [] (suc n) p q = ground arith
strncmp-zero_iff (a ∷ s) (b ∷ t) (suc n) p q = ground (arith, strncmp-zero_iff s t n p.1 q.1)

-- On ASCII strings without a NUL inside, `strcasecmp` answers 0 exactly on equal strings: it does
-- not ignore case.
pub strcasecmp-zero_iff :
    (s t : CString)
    → IsText s
    → IsText t
    → IsAscii s
    → IsAscii t
    → (strcasecmp s t ≡ pos 0) ↔ (s ≡ t)
unfolding strcasecmp
strcasecmp-zero_iff [] [] p q u v = ground arith
strcasecmp-zero_iff [] (b ∷ t) p q u v = ground arith
strcasecmp-zero_iff (a ∷ s) [] p q u v = ground arith
strcasecmp-zero_iff (a ∷ s) (b ∷ t) p q u v =
    ground (arith, tolower-injective a b u.0 v.0, strcasecmp-zero_iff s t p.1 q.1 u.1 v.1)

pub strcasecmp_refl : (s : CString) → strcasecmp s s ≡ pos 0
unfolding strcasecmp
strcasecmp_refl [] = refl
strcasecmp_refl (c ∷ s) = ground (arith, strcasecmp_refl s)
