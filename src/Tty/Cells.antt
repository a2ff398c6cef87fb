-- ===== src/Tty/Cells.antt =====
-- The loops of `tty_scroll`, cell by cell.
use minios_grub_bootloader.Base.{
  eq_of_test, ne_of_test, ℕ, zero, suc, ◌+◌, ◌-◌, ◌≤◌, ◌<◌, ◌≡◌, refl, ap, ◌∙◌, inl, inr, ◌&&◌,
  List, arith, ltb, leb, ◌==◌, if◌then◌else◌, Bool-cases, length, get_or, set, length-set,
  get_or-set_self, get_or-set_ne,
}
use minios_grub_bootloader.Tty.{vga_width, fill, copy_cells}

pub length-fill : (left i c : ℕ) (b : List ℕ) → length (fill left i c b) ≡ length b
unfolding fill
length-fill zero i c b = refl
length-fill (suc left) i c b = length-fill left (i + 1) c (set b i c) ∙ length-set b i c

pub get_or-set :
    (b : List ℕ) (i q c : ℕ)
    → i < length b
    → get_or (set b i c) q 0 ≡ (if q == i then c else get_or b q 0)
get_or-set b i q c h = elim (Bool-cases (q == i)) [
  | inl e ↦ ground (arith, get_or-set_self b i c 0 h, eq_of_test q i e)
  | inr e ↦ ground (arith, get_or-set_ne b i q c 0, ne_of_test q i e)
]

pub fill_lem :
    (left i c : ℕ) (b : List ℕ) (q : ℕ)
    → i + left ≤ length b
    → get_or (fill left i c b) q 0 ≡ (if leb i q && ltb q (i + left) then c else get_or b q 0)
unfolding fill
fill_lem zero i c b q h = ground arith
fill_lem (suc left) i c b q h =
    let at = get_or-set b i q c (omega arith) in
    let rest = fill_lem left (i + 1) c (set b i c) q (omega (arith, length-set b i c)) in
    ground (arith, at, rest)

pub length-copy_cells : (left i : ℕ) (b : List ℕ) → length (copy_cells left i b) ≡ length b
unfolding copy_cells
length-copy_cells zero i b = refl
length-copy_cells (suc left) i b = length-copy_cells left (i + 1) _ ∙ length-set b (i - vga_width) _

-- The loop reads cells that it has not written.
pub copy_cells_lem :
    (left i : ℕ) (b : List ℕ) (q : ℕ)
    → i + left ≤ length b
    → vga_width ≤ i
    → get_or (copy_cells left i b) q 0 ≡ (
        if leb i (q + vga_width) && ltb (q + vga_width) (i + left)
        then get_or b (q + vga_width) 0
        else get_or b q 0)
unfolding copy_cells
copy_cells_lem zero i b q h w = ground arith
copy_cells_lem (suc left) i b q h w =
    let c = get_or b i 0 in
    let at = get_or-set b (i - vga_width) q c (omega arith) in
    let at' = get_or-set b (i - vga_width) (q + vga_width) c (omega arith) in
    let rest =
      copy_cells_lem left (i + 1) (set b (i - vga_width) c) q
        (omega (arith, length-set b (i - vga_width) c)) (omega arith) in
    let same : q + vga_width ≡ i → get_or b (q + vga_width) 0 ≡ c = λ e. ap (λ k. get_or b k 0) e in
    ground (arith, at, at', rest, same)
