-- ===== src/Fat32/File/Line/Prefix.antt =====
-- The first line of some bytes, without the loop that copies it.
use minios_grub_bootloader.Base.{
  ℕ, zero, suc, ◌≤◌, ◌<◌, ◌≡◌, ◌≢◌, ◌⊎◌, refl, ap, inl, inr, Bool, true, false, List, [], ◌∷◌, ◌++◌,
  arith, ◌==◌, Bool-cases, eq_of_test, ne_of_test, length,
}
use minios_grub_bootloader.Libc.Strings.Search.{Lacks}
use minios_grub_bootloader.Fat32.File.Line.{copy_line}

-- The line of the bytes for a buffer with room for some of them and a NUL, and whether it is whole: up
-- to the first line feed, that included, if it fits, and otherwise as much as there is and fits, of
-- which no byte is a line feed.
pub data IsFirstLine (room : ℕ) (bytes : List ℕ) : List ℕ × Bool → Type 0 where
  whole :
      (line rest : List ℕ)
      → bytes ≡ line ++ (10 ∷ rest)
      → Lacks 10 line
      → length line < room
      → IsFirstLine room bytes (line ++ (10 ∷ []), true)
  cut :
      (line rest : List ℕ)
      → bytes ≡ line ++ rest
      → Lacks 10 line
      → (length line ≡ room) ⊎ ((rest ≡ []) × (length line ≤ room))
      → IsFirstLine room bytes (line, false)

IsFirstLine-cons :
    {room : ℕ} {bytes : List ℕ} {line : List ℕ × Bool} (c : ℕ)
    → c ≢ 10
    → IsFirstLine room bytes line
    → IsFirstLine (suc room) (c ∷ bytes) (c ∷ line.0, line.1)
IsFirstLine-cons c other (whole line rest e lacks fits) =
    whole (c ∷ line) rest (ap (λ l. c ∷ l) e) (other, lacks) (omega arith)
IsFirstLine-cons c other (cut line rest e lacks (inl full)) =
    cut (c ∷ line) rest (ap (λ l. c ∷ l) e) (other, lacks) (inl (omega arith))
IsFirstLine-cons c other (cut line rest e lacks (inr (none_left, fits))) =
    cut (c ∷ line) rest (ap (λ l. c ∷ l) e) (other, lacks) (inr (none_left, omega arith))

pub copy_line-IsFirstLine :
    (room : ℕ) (bytes : List ℕ) → IsFirstLine room bytes (copy_line room bytes)
unfolding copy_line
copy_line-IsFirstLine zero bytes = cut [] bytes refl tt (inl refl)
copy_line-IsFirstLine (suc room) [] = cut [] [] refl tt (inr (refl, omega arith))
copy_line-IsFirstLine (suc room) (c ∷ bytes) = elim (Bool-cases (c == 10)) [
  | inl newline ↦ rw (eq_of_test c 10 newline) (whole [] bytes refl tt (omega arith))
  | inr other ↦
      rw other (IsFirstLine-cons c (ne_of_test c 10 other) (copy_line-IsFirstLine room bytes))
]
