-- ===== src/Fat32/Stamp.antt =====
-- `time_to_fat` and `date_to_fat`: the packed times of a directory entry. The arguments are bytes.
pub mod Fields
use minios_grub_bootloader.Base.{
  ℕ, zero, suc, ◌+◌, ◌-◌, ◌*◌, ◌/◌, ◌%◌, ◌^◌, ◌≤◌, ◌<◌, min, bit_and, bit_or, ◌≡◌, refl, sym, ap,
  ap₂, ◌∙◌, ◌≢◌, ◌↔◌, ◌⊎◌, inl, inr, Bool, true, false, not, ◌&&◌, ◌||◌, Option, none, some, List,
  [], ◌∷◌, ◌++◌, map, append-nil, append_assoc, arith, ltb, leb, ◌==◌, if◌then◌else◌, Bool-cases,
  Option-cases, u8, u16, u32, ◌<<<◌, ◌>>>◌, length, get_elem?, get_or, set, take, drop, replicate,
  ℤ, pos, negsuc, sub_ℕ,
}

pub time_to_fat : ℕ → ℕ → ℕ → ℕ
time_to_fat hours minutes seconds = u16 (
    bit_or (bit_or (bit_and hours 0x1F <<< 11) (bit_and minutes 0x3F <<< 5))
      (bit_and (seconds / 2) 0x1F))

pub date_to_fat : ℕ → ℕ → ℕ → ℕ
date_to_fat day month year =
    let fat_year = u8 (if leb 80 year then year - 80 else year + 20) in
    u16
      (bit_or (bit_or (bit_and fat_year 0x7F <<< 9) (bit_and month 0x0F <<< 5)) (bit_and day 0x1F))
