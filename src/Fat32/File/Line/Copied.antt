-- ===== src/Fat32/File/Line/Copied.antt =====
-- How much of a buffer the inner loop of `fat32_read_line` copies.
use minios_grub_bootloader.Base.{
  ap, ℕ, zero, suc, ◌-◌, ◌≤◌, ◌<◌, min, ◌≡◌, refl, inl, inr, false, List, [], ◌∷◌, ◌++◌, arith,
  ◌==◌, if◌then◌else◌, Bool-cases, length,
}
use minios_grub_bootloader.Fat32.File.Line.{copy_line}

-- With one buffer behind another: the second one is read if there was no end of line in the first.
pub copy_line-append :
    (room : ℕ) (xs ys : List ℕ)
    → copy_line room (xs ++ ys) ≡ (
        if (copy_line room xs).1 then copy_line room xs else (
          (copy_line room xs).0 ++ (copy_line (room - length xs) ys).0,
          (copy_line (room - length xs) ys).1,
        ))
unfolding copy_line
copy_line-append zero xs ys = let none_left : 0 - length xs ≡ 0 = omega arith in rw none_left refl
copy_line-append (suc room) [] ys =
    let whole : suc room - 0 ≡ suc room = omega arith in rw whole refl
copy_line-append (suc room) (c ∷ xs) ys = elim (Bool-cases (c == 10)) [
  | inl newline ↦ rw newline refl
  | inr other ↦
      let more = copy_line-append room xs ys in
      let left : suc room - suc (length xs) ≡ room - length xs = omega arith in
      elim (Bool-cases (copy_line room xs).1) [
        | inl ended ↦ rw (other, more, ended) (ap (λ b. (c ∷ (copy_line room xs).0, b)) ended)
        | inr going ↦ rw (other, left, more, going) refl
      ]
]

-- Without an end of line the loop stops where the buffer or the room ends.
pub length-copy_line :
    (room : ℕ) (xs : List ℕ)
    → (copy_line room xs).1 ≡ false
    → length (copy_line room xs).0 ≡ min room (length xs)
unfolding copy_line
length-copy_line zero xs e = omega arith
length-copy_line (suc room) [] e = omega arith
length-copy_line (suc room) (c ∷ xs) e = elim (Bool-cases (c == 10)) [
  | inl newline ↦ absurd (let whole = rw (copy_line, newline) at e in cc)
  | inr other ↦
      let rest = rw (copy_line, other) at e in
      rw other (omega (arith, length-copy_line room xs rest))
]

-- A line is a byte long at least, and fits the room and the buffer.
pub copy_line_bounds :
    (room : ℕ) (xs : List ℕ)
    → (length (copy_line room xs).0 ≤ room)
      × (length (copy_line room xs).0 ≤ length xs)
      × (0 < room → 0 < length xs → 0 < length (copy_line room xs).0)
unfolding copy_line
copy_line_bounds zero xs = (omega arith, omega arith, λ a b. absurd (omega arith))
copy_line_bounds (suc room) [] = (omega arith, omega arith, λ a b. absurd (omega arith))
copy_line_bounds (suc room) (c ∷ xs) = elim (Bool-cases (c == 10)) [
  | inl newline ↦ rw newline (omega arith, omega arith, λ a b. omega arith)
  | inr other ↦
      let rest = copy_line_bounds room xs in
      rw other (omega (arith, rest.0), omega (arith, rest.1), λ a b. omega arith)
]

pub copy_line-empty : (room : ℕ) → copy_line room [] ≡ ([], false)
unfolding copy_line
copy_line-empty zero = refl
copy_line-empty (suc room) = refl

pub copy_line-no_room : (room : ℕ) (xs : List ℕ) → room ≡ 0 → copy_line room xs ≡ ([], false)
unfolding copy_line
copy_line-no_room room xs e = rw e refl
