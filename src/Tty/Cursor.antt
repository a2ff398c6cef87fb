-- ===== src/Tty/Cursor.antt =====
-- The cursor of tty.c in the registers of the VGA controller, behind the ports 0x3D4 and 0x3D5.
use minios_grub_bootloader.Base.{
  ℕ, ◌+◌, ◌*◌, ◌/◌, ◌%◌, ◌^◌, ◌<◌, bit_and, bit_or, ◌≡◌, ap₂, ◌∙◌, Bool, true, arith, u8, u16,
  ◌<<<◌, ◌>>>◌, bit_and_mask, bit_or_fields, bit_or_comm, bit_or-zero,
}
use minios_grub_bootloader.Ports.{
  IsIndexed, read_at, write_at, read_at_lem, read_at_keeps, write_at_self, write_at_ne,
}
use minios_grub_bootloader.Ata.{Ports}
use minios_grub_bootloader.Tty.{Terminal, vga_width, tty_cursor_update}

module _ {S : Type 0} (ports : Ports S) where
  pub tty_cursor_enable : ℕ → ℕ → S → S
  tty_cursor_enable cursor_start cursor_end s =
      let (first, s1) = ports.inb 0x3D5 (ports.outb 0x3D4 0x0A s) in
      let s2 = ports.outb 0x3D5 (u8 (bit_or (bit_and first 0xC0) cursor_start)) s1 in
      let (last, s3) = ports.inb 0x3D5 (ports.outb 0x3D4 0x0B s2) in
      ports.outb 0x3D5 (u8 (bit_or (bit_and last 0xE0) cursor_end)) s3

  pub tty_cursor_disable : S → S
  tty_cursor_disable s = ports.outb 0x3D5 0x20 (ports.outb 0x3D4 0x0A s)

  pub tty_cursor_get_pos : S → ℕ × S
  tty_cursor_get_pos s =
      let (low, s1) = ports.inb 0x3D5 (ports.outb 0x3D4 0x0F s) in
      let (high, s2) = ports.inb 0x3D5 (ports.outb 0x3D4 0x0E s1) in
      (bit_or (bit_or 0 low) (u16 (high <<< 8)), s2)

  -- The writes of `tty_cursor_update`.
  pub send_cursor : ℕ → ℕ → S → S
  send_cursor x y s =
      let pos = u16 (u8 y * vga_width + u8 x) in
      let s1 = ports.outb 0x3D5 (u8 (bit_and pos 0xFF)) (ports.outb 0x3D4 0x0F s) in
      ports.outb 0x3D5 (u8 (bit_and (pos >>> 8) 0xFF)) (ports.outb 0x3D4 0x0E s1)

module _ {S : Type 0} {ports : Ports S} {keeps : ℕ → Bool} (d : IsIndexed ports 0x3D4 0x3D5 keeps)
    (low_kept : keeps 0x0F ≡ true) (high_kept : keeps 0x0E ≡ true) where
  abbrev pos : ℕ → ℕ → ℕ
  pos x y = u16 (u8 y * vga_width + u8 x)

  send_cursor_registers :
      (x y : ℕ) (s : S)
      → (d.register (send_cursor ports x y s) 0x0F ≡ pos x y % 2 ^ 8)
        × (d.register (send_cursor ports x y s) 0x0E ≡ pos x y / 2 ^ 8)
  unfolding send_cursor
  send_cursor_registers x y s =
      let low = u8 (bit_and (pos x y) 0xFF) in
      let high = u8 (bit_and (pos x y >>> 8) 0xFF) in
      let s1 = write_at ports 0x3D4 0x3D5 0x0F low s in
      let first : d.register (write_at ports 0x3D4 0x3D5 0x0E high s1) 0x0F ≡ low =
        write_at_ne d 0x0E high s1 0x0F high_kept (λ e. absurd (omega (arith, e)))
        ∙ write_at_self d 0x0F low s low_kept (omega arith) in
      let second = write_at_self d 0x0E high s1 high_kept (omega arith) in
      (
        omega (arith, first, bit_and_mask 8 (pos x y)),
        omega (arith, second, bit_and_mask 8 (pos x y / 2 ^ 8)),
      )

  -- The bytes of a number of 16 bits, put together as the code does.
  joined :
      (low high : ℕ)
      → low < 2 ^ 8
      → high < 2 ^ 8
      → bit_or (bit_or 0 low) (u16 (high <<< 8)) ≡ high * 2 ^ 8 + low
  joined low high p q =
      let whole : u16 (high <<< 8) ≡ high * 2 ^ 8 = omega arith in
      ap₂ bit_or (bit_or_comm 0 low ∙ bit_or-zero low) whole
      ∙ bit_or_comm low (high * 2 ^ 8)
      ∙ bit_or_fields 8 high low p

  -- The registers of the cursor's position keep what is written to them: `tty_cursor_get_pos`
  -- after `tty_cursor_update` answers the position that the terminal then has.
  pub tty_cursor_get_pos-tty_cursor_update :
      (x y : ℕ) (s : S) (t : Terminal)
      → (tty_cursor_get_pos ports (send_cursor ports x y s)).0 ≡ (tty_cursor_update x y t).cursor
  unfolding tty_cursor_get_pos tty_cursor_update
  tty_cursor_get_pos-tty_cursor_update x y s t =
      let s' = send_cursor ports x y s in
      let registers = send_cursor_registers x y s in
      let low = read_at_lem d 0x0F s' low_kept in
      let s1 = (read_at ports 0x3D4 0x3D5 0x0F s').1 in
      let high = read_at_lem d 0x0E s1 high_kept ∙ read_at_keeps d 0x0F s' 0x0E in
      ap₂ (λ a b. bit_or (bit_or 0 a) (u16 (b <<< 8))) (low ∙ registers.0) (high ∙ registers.1)
      ∙ joined (pos x y % 2 ^ 8) (pos x y / 2 ^ 8) (omega arith) (omega arith)
      ∙ omega arith
