-- ===== src/Cmos.antt =====
-- The clock, kernel/src/drivers/cmos.c. `read` is the value of a register; `none` is `kpanic`, which
-- does not return.
pub mod Clock
pub mod Registers
use minios_grub_bootloader.Base.{
  ℕ, zero, suc, ◌+◌, ◌-◌, ◌*◌, ◌/◌, ◌%◌, ◌^◌, ◌≤◌, ◌<◌, min, bit_and, bit_or, ◌≡◌, refl, sym, ap,
  ap₂, ◌∙◌, ◌≢◌, ◌↔◌, ◌⊎◌, inl, inr, Bool, true, false, not, ◌&&◌, ◌||◌, Option, none, some, List,
  [], ◌∷◌, ◌++◌, map, append-nil, append_assoc, arith, ltb, leb, ◌==◌, if◌then◌else◌, Bool-cases,
  Option-cases, u8, u16, u32, ◌<<<◌, ◌>>>◌, length, get_elem?, get_or, set, take, drop, replicate,
}

unfoldable pub bcd_to_binary : ℕ → ℕ
bcd_to_binary bcd = u8 (bit_and bcd 0x0F + bcd / 16 * 10)

-- `bcd_format` and the conversion of a register's value.
unfoldable pub decode : (ℕ → ℕ) → ℕ → ℕ
decode read reg = if bit_and (read 0x0B) 0x04 == 0 then bcd_to_binary (read reg) else read reg

-- The seconds, the minutes and the hours.
unfoldable pub get_rtc_time : (ℕ → ℕ) → Option (ℕ × (ℕ × ℕ))
get_rtc_time read =
    let seconds = decode read 0x00 in
    let minutes = decode read 0x02 in
    let hours = decode read 0x04 in
    if ltb 59 seconds || (ltb 59 minutes || ltb 23 hours)
    then none
    else some (seconds, (minutes, hours))

-- The day, the month and the year of the century.
unfoldable pub get_rtc_date : (ℕ → ℕ) → Option (ℕ × (ℕ × ℕ))
get_rtc_date read =
    let day = decode read 0x07 in
    let month = decode read 0x08 in
    let year = decode read 0x09 in
    if day == 0 || (ltb 31 day || (month == 0 || ltb 12 month))
    then none
    else some (day, (month, year))
