-- ===== src/Tty/Screen.antt =====
-- The cells of the screen and the place of the cursor.
use minios_grub_bootloader.Libc.Strings.{strlen}
use minios_grub_bootloader.Base.{
  take, eq_of_test, ne_of_test, test_of_ne, le_of_leb, ℕ, ◌+◌, ◌-◌, ◌*◌, ◌≤◌, ◌<◌, ◌≡◌, refl, ap,
  ◌∙◌, ◌≢◌, inl, inr, List, [], ◌∷◌, arith, ltb, leb, ◌==◌, if◌then◌else◌, Bool-cases, length,
  get_or, set, length-set,
}
use minios_grub_bootloader.Tty.{
  Terminal, vga_width, vga_height, vga_entry, copy_cells, tty_cursor_update, tty_scroll,
  tty_new_line, tty_putentryat, tty_putchar, put_bytes, tty_puts,
}
use minios_grub_bootloader.Tty.Cells.{
  length-fill, get_or-set, fill_lem, length-copy_cells, copy_cells_lem,
}

-- The place for the next character is on the screen.
pub record IsValid (t : Terminal) : Type 0 where
  pub row : t.row < vga_height
  pub column : t.column < vga_width
  pub cells : length t.buffer ≡ vga_height * vga_width

-- A cell of the screen.
abbrev pub cell : Terminal → ℕ → ℕ
cell t q = get_or t.buffer q 0

-- The place of the next character.
abbrev pub place : Terminal → ℕ
place t = t.row * vga_width + t.column

-- A scroll by one line keeps the number of cells; each line takes the text of the next one, and the
-- last line becomes blank.
tty_scroll_lem :
    (t : Terminal)
    → length t.buffer ≡ vga_height * vga_width
    → (length (tty_scroll 1 t).buffer ≡ vga_height * vga_width)
      × ((q : ℕ)
          → q < vga_height * vga_width
          → cell (tty_scroll 1 t) q ≡ (
              if ltb q (vga_height * vga_width - vga_width)
              then cell t (q + vga_width)
              else vga_entry 32 t.color))
unfolding tty_scroll
tty_scroll_lem t h = (
  length-fill 80 1920 (vga_entry 32 t.color) (copy_cells 1920 80 t.buffer) ∙ kept,
  λ q l. ground (
    arith,
    fill_lem 80 1920 (vga_entry 32 t.color) (copy_cells 1920 80 t.buffer) q (omega (arith, kept)),
    copy_cells_lem 1920 80 t.buffer q (omega arith) (omega arith),
  ),
)
  where
    kept : length (copy_cells 1920 80 t.buffer) ≡ 2000
    kept = length-copy_cells 1920 80 t.buffer ∙ h

-- What a printed character does to the screen.
pub data IsPut (c : ℕ) (t t' : Terminal) : Type 0 where
  in_place :
      place t + 1 < vga_height * vga_width
      → place t' ≡ place t + 1
      → ((q : ℕ) → cell t' q ≡ (if q == place t then vga_entry c t.color else cell t q))
      → IsPut c t t'
  scrolled :
      place t + 1 ≡ vga_height * vga_width
      → place t' + vga_width ≡ vga_height * vga_width
      → ((q : ℕ)
          → q < vga_height * vga_width
          → cell t' q ≡ (
              if q + vga_width == place t
              then vga_entry c t.color
              else if leb (place t') q
              then vga_entry 32 t.color
              else cell t (q + vga_width)))
      → IsPut c t t'

tty_scroll_place :
    (t : Terminal) → ((tty_scroll 1 t).row ≡ t.row) × ((tty_scroll 1 t).column ≡ t.column)
unfolding tty_scroll
tty_scroll_place t = (refl, refl)

-- The new line is the next one, or the last one of the scrolled screen.
data IsNewLine (t t' : Terminal) : Type 0 where
  below :
      t.row + 1 < vga_height
      → t'.row ≡ t.row + 1
      → t'.column ≡ 0
      → t'.buffer ≡ t.buffer
      → IsNewLine t t'
  scroll :
      vga_height ≤ t.row + 1
      → t'.row ≡ vga_height - 1
      → t'.column ≡ 0
      → t'.buffer ≡ (tty_scroll 1 (record t { column = 0; row = vga_height - 1 })).buffer
      → IsNewLine t t'

tty_new_line-IsNewLine : (t : Terminal) → IsNewLine t (tty_new_line t)
unfolding tty_new_line tty_cursor_update
tty_new_line-IsNewLine t = elim (Bool-cases (leb vga_height (t.row + 1))) [
  | inl last ↦
      let kept = tty_scroll_place (record t { column = 0; row = vga_height - 1 }) in
      scroll (le_of_leb _ _ last) (rw last kept.0) (rw last kept.1) (rw last refl)
  | inr inner ↦ below (ground (arith, inner)) (rw inner refl) (rw inner refl) (rw inner refl)
]

tty_new_line-IsValid :
    (t : Terminal)
    → t.row < vga_height
    → length t.buffer ≡ vga_height * vga_width
    → IsValid (tty_new_line t)
tty_new_line-IsValid t l h = elim (tty_new_line-IsNewLine t) [
  | below lt row column buffer ↦ record {
    row = omega arith;
    column = omega arith;
    cells = ap (λ b. length b) buffer ∙ h;
  }
  | scroll le row column buffer ↦ record {
    row = omega arith;
    column = omega arith;
    cells =
        ap (λ b. length b) buffer
        ∙ (tty_scroll_lem (record t { column = 0; row = vga_height - 1 }) h).0;
  }
]

-- The terminal after a character that is no line feed, before the end of the line is looked at.
abbrev next : ℕ → Terminal → Terminal
next c t =
    let put = tty_putentryat c t.color t.column t.row t in record put { column = put.column + 1 }

tty_putchar-line_feed : (t : Terminal) → tty_putchar 10 t ≡ tty_new_line t
unfolding tty_putchar
tty_putchar-line_feed t = refl

tty_putchar-next :
    (c : ℕ) (t : Terminal)
    → c ≢ 10
    → tty_putchar c t ≡ (if t.column + 1 == vga_width then tty_new_line (next c t) else next c t)
unfolding tty_putchar tty_putentryat tty_cursor_update
tty_putchar-next c t ne = rw (tty_putchar, test_of_ne c 10 ne) refl

next-fields :
    (c : ℕ) (t : Terminal)
    → ((next c t).row ≡ t.row)
      × (((next c t).column ≡ t.column + 1)
          × (((next c t).color ≡ t.color)
              × ((next c t).buffer ≡ set t.buffer (place t) (vga_entry c t.color))))
unfolding tty_putentryat tty_cursor_update
next-fields c t = (refl, (refl, (refl, refl)))

-- A printed character keeps the place of the next one on the screen.
pub tty_putchar-IsValid : (c : ℕ) (t : Terminal) → IsValid t → IsValid (tty_putchar c t)
tty_putchar-IsValid c t v = elim (Bool-cases (c == 10)) [
  | inl e ↦
      rw (eq_of_test c 10 e) (rw (tty_putchar-line_feed t) (tty_new_line-IsValid t v.row v.cells))
  | inr e ↦
      rw (tty_putchar-next c t (ne_of_test c 10 e)) (elim (Bool-cases (t.column + 1 == vga_width)) [
        | inl full ↦ rw full (tty_new_line-IsValid (next c t) (rw (next-fields c t).0 v.row) kept)
        | inr inner ↦ rw inner (record {
          row = rw (next-fields c t).0 v.row;
          column = rw (next-fields c t).1.0 (ground (arith, v.column, inner));
          cells = kept;
        })
      ])
]
  where
    kept : length (next c t).buffer ≡ vga_height * vga_width
    kept =
        rw (next-fields c t).1.1.1 (length-set t.buffer (place t) (vga_entry c t.color) ∙ v.cells)

next-cell :
    (c : ℕ) (t : Terminal)
    → IsValid t
    → (q : ℕ) → cell (next c t) q ≡ (if q == place t then vga_entry c t.color else cell t q)
next-cell c t v q = rw (next-fields c t).1.1.1 (
    get_or-set t.buffer (place t) q (vga_entry c t.color)
      (ground (arith, v.row, v.column, v.cells)))

-- With the cursor on the screen, a character that is no line feed is written at the place of the
-- cursor and nowhere else, and the place moves on by one; at the end of the last line the screen
-- has moved up by one line, and the last line is blank with the cursor at its start.
pub tty_putchar-IsPut : (c : ℕ) (t : Terminal) → IsValid t → c ≢ 10 → IsPut c t (tty_putchar c t)
tty_putchar-IsPut c t v ne =
    rw (tty_putchar-next c t ne) (elim (Bool-cases (t.column + 1 == vga_width)) [
      | inl full ↦ rw full (wrapped (eq_of_test _ _ full) (tty_new_line-IsNewLine (next c t)))
      | inr inner ↦ rw inner (
          in_place (ground (arith, f, inner, v.row, v.column)) (ground (arith, f))
            (next-cell c t v))
    ])
  where
    f :
        ((next c t).row ≡ t.row)
        × (((next c t).column ≡ t.column + 1)
            × (((next c t).color ≡ t.color)
                × ((next c t).buffer ≡ set t.buffer (place t) (vga_entry c t.color))))
    f = next-fields c t

    kept : length (next c t).buffer ≡ vga_height * vga_width
    kept = rw f.1.1.1 (length-set t.buffer (place t) (vga_entry c t.color) ∙ v.cells)

    wrapped : t.column + 1 ≡ vga_width → {t' : Terminal} → IsNewLine (next c t) t' → IsPut c t t'
    wrapped full {t'} (below lt row column buffer) =
        in_place (ground (arith, f, lt, row, column, full)) (ground (arith, f, row, column, full))
          (λ q. ap (λ b. get_or b q 0) buffer ∙ next-cell c t v q)
    wrapped full {t'} (scroll le row column buffer) =
        scrolled (ground (arith, f, full, le, v.row)) (ground (arith, row, column)) (λ q l.
          ap (λ b. get_or b q 0) buffer
          ∙ (tty_scroll_lem (record (next c t) { column = 0; row = vga_height - 1 }) kept).1 q l
          ∙ rw f.1.1.0 (
              ground
                (arith, row, column, full, le, f.0, v.row, l, next-cell c t v (q + vga_width))))

put_bytes-IsValid : (text : List ℕ) (t : Terminal) → IsValid t → IsValid (put_bytes text t)
unfolding put_bytes
put_bytes-IsValid [] t v = v
put_bytes-IsValid (c ∷ text) t v =
    put_bytes-IsValid text (tty_putchar c t) (tty_putchar-IsValid c t v)

-- Printing a string with the cursor on the screen leaves the place of the next character on the
-- screen and the number of cells as it was.
pub tty_puts-IsValid : (str : List ℕ) (t : Terminal) → IsValid t → IsValid (tty_puts str t)
unfolding tty_puts
tty_puts-IsValid str t v = put_bytes-IsValid (take (strlen str) str) t v
