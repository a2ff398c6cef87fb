-- ===== src/Cmos/Registers.antt =====
-- `cmos_read` and `cmos_write` of cmos.c, and the clock over the device that they talk to.
use minios_grub_bootloader.Base.{
  ℕ, ◌^◌, ◌<◌, ◌≡◌, ◌∙◌, inl, inr, Bool, true, ◌==◌, if◌then◌else◌, Bool-cases, eq_of_test,
  ne_of_test,
}
use minios_grub_bootloader.Ata.{Ports}
use minios_grub_bootloader.Ports.{IsIndexed, read_at_lem, write_at_self, write_at_ne}

abbrev pub cmos_address_port : ℕ
cmos_address_port = 0x70

abbrev pub cmos_data_port : ℕ
cmos_data_port = 0x71

module _ {S : Type 0} (ports : Ports S) where
  pub cmos_read : ℕ → S → ℕ × S
  cmos_read reg s = ports.inb cmos_data_port (ports.outb cmos_address_port reg s)

  pub cmos_write : ℕ → ℕ → S → S
  cmos_write reg value s = ports.outb cmos_data_port value (ports.outb cmos_address_port reg s)

module _ {S : Type 0} {ports : Ports S} {keeps : ℕ → Bool}
    (d : IsIndexed ports cmos_address_port cmos_data_port keeps) where
  -- On a device that keeps two registers: after `cmos_write` of a byte to one, `cmos_read` of the
  -- other one answers the byte if it is the same register, and what it held before if it is not.
  pub cmos_read-cmos_write :
      (reg value other : ℕ) (s : S)
      → keeps reg ≡ true
      → keeps other ≡ true
      → value < 2 ^ 8
      → (cmos_read ports other (cmos_write ports reg value s)).0
        ≡ (if other == reg then value else d.register s other)
  unfolding cmos_read cmos_write
  cmos_read-cmos_write reg value other s k j small =
      read_at_lem d other (cmos_write ports reg value s) j ∙ elim (Bool-cases (other == reg)) [
        | inl same ↦ rw (same, eq_of_test other reg same) (write_at_self d reg value s k small)
        | inr apart ↦ rw apart (write_at_ne d reg value s other k (ne_of_test other reg apart))
      ]
