-- ===== src/Tty.antt =====
-- The text terminal, kernel/src/drivers/tty.c with kernel/include/drivers/tty.h and the entries of
-- kernel/include/vga.h. The screen memory is a list of 80 * 25 cells of 16 bits, and `cursor` is
-- the position that `tty_cursor_update` leaves in the registers 0x0F and 0x0E of the controller.
mod Cells
mod Screen
pub mod Cursor
mod Examples
use minios_grub_bootloader.Base.{
  ℕ, zero, suc, ◌+◌, ◌-◌, ◌*◌, ◌^◌, bit_or, ◌||◌, List, [], ◌∷◌, ltb, leb, ◌==◌, if◌then◌else◌, u8,
  u16, get_or, set, take,
}
use minios_grub_bootloader.Libc.Strings.{strlen}

abbrev pub vga_width : ℕ
vga_width = 80

abbrev pub vga_height : ℕ
vga_height = 25

-- `vga_entry_color`
pub vga_entry_color : ℕ → ℕ → ℕ
vga_entry_color fg bg = u8 (bit_or fg (bg * 2 ^ 4))

pub vga_entry : ℕ → ℕ → ℕ
vga_entry c color = u16 (bit_or c (color * 2 ^ 8))

-- The static variables of the file and the cursor.
pub record Terminal : Type 0 where
  pub row : ℕ
  pub column : ℕ
  pub color : ℕ
  pub buffer : List ℕ
  pub cursor : ℕ

pub tty_setcolor : ℕ → Terminal → Terminal
tty_setcolor color t = record t { color = color }

-- The arguments are of type `uint8_t`.
pub tty_cursor_update : ℕ → ℕ → Terminal → Terminal
tty_cursor_update x y t = record t { cursor = u16 (u8 y * vga_width + u8 x) }

-- `left` cells from `index` on become `cell`.
pub fill : ℕ → ℕ → ℕ → List ℕ → List ℕ
fill zero index cell buffer = buffer
fill (suc left) index cell buffer = fill left (index + 1) cell (set buffer index cell)

-- The two loops of `tty_clear` visit the cells in the order of their index.
pub tty_clear : Terminal → Terminal
tty_clear t = record t { buffer = fill (vga_height * vga_width) 0 (vga_entry 32 t.color) t.buffer }

pub tty_init : Terminal → Terminal
tty_init t = tty_clear (record t { row = 0; column = 0; color = vga_entry_color 7 0 })

pub tty_putentryat : ℕ → ℕ → ℕ → ℕ → Terminal → Terminal
tty_putentryat c color x y t =
    tty_cursor_update (x + 1) y
      (record t { buffer = set t.buffer (y * vga_width + x) (vga_entry c color) })

-- The first loop of `tty_scroll`, from cell `index` on.
pub copy_cells : ℕ → ℕ → List ℕ → List ℕ
copy_cells zero index buffer = buffer
copy_cells (suc left) index buffer =
    copy_cells left (index + 1) (set buffer (index - vga_width) (get_or buffer index 0))

pub tty_scroll : ℕ → Terminal → Terminal
tty_scroll line t =
    let copied =
      copy_cells (vga_height * vga_width - line * vga_width) (line * vga_width) t.buffer in
    if ltb line 1 || leb vga_height line then t else record t {
      buffer =
          fill (line * vga_width) ((vga_height - line) * vga_width) (vga_entry 32 t.color) copied;
    }

pub tty_new_line : Terminal → Terminal
tty_new_line t =
    let moved = record t { column = 0; row = t.row + 1 } in
    let scrolled = tty_scroll 1 (record moved { row = vga_height - 1 }) in
    let t' = if leb vga_height moved.row then scrolled else moved in
    tty_cursor_update t'.column t'.row t'

-- `c` is the byte of the character, which the code reads as `unsigned char`.
pub tty_putchar : ℕ → Terminal → Terminal
tty_putchar c t =
    let put = tty_putentryat c t.color t.column t.row t in
    let next = record put { column = put.column + 1 } in
    if c == 10 then tty_new_line t else if next.column == vga_width then tty_new_line next else next

-- The loop of `tty_puts` over the bytes of the string.
unfoldable pub put_bytes : List ℕ → Terminal → Terminal
put_bytes [] t = t
put_bytes (c ∷ text) t = put_bytes text (tty_putchar c t)

unfoldable pub tty_puts : List ℕ → Terminal → Terminal
tty_puts str t = put_bytes (take (strlen str) str) t
