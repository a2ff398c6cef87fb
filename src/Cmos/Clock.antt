-- ===== src/Cmos/Clock.antt =====
-- What the clock's functions give for a clock that runs.
use minios_grub_bootloader.Base.{
  ℕ, ◌+◌, ◌*◌, ◌/◌, ◌%◌, ◌<◌, bit_and, ◌≡◌, ◌&&◌, none, some, arith, leb, ◌==◌, if◌then◌else◌,
  bit_and_mask,
}
use minios_grub_bootloader.Cmos.{bcd_to_binary, decode, get_rtc_time, get_rtc_date}

-- The value of two decimal digits in BCD.
abbrev pub bcd : ℕ → ℕ
bcd n = n / 10 * 16 + n % 10

-- A number of two decimal digits comes back from its BCD code.
pub bcd_to_binary-bcd : (n : ℕ) → n < 100 → bcd_to_binary (bcd n) ≡ n
unfolding bcd_to_binary
bcd_to_binary-bcd n h = ground (arith, bit_and_mask 4 (bcd n))

-- A clock shows `n` in register `reg`, in the format that bit 2 of register B names.
abbrev pub Shows : (ℕ → ℕ) → ℕ → ℕ → Type 0
Shows read reg n = (n < 100) × (read reg ≡ (if bit_and (read 0x0B) 0x04 == 0 then bcd n else n))

decode_lem : (read : ℕ → ℕ) (reg n : ℕ) → Shows read reg n → decode read reg ≡ n
unfolding decode
decode_lem read reg n (h, e) = ground (arith, bcd_to_binary-bcd n h, e)

-- For a clock that shows two digits for each of the three values, in BCD or in binary as register
-- B says: a time with at most 59 seconds, 59 minutes and 23 hours is returned as it is, and any
-- other ends in the panic.
pub get_rtc_time_lem :
    (read : ℕ → ℕ) (seconds minutes hours : ℕ)
    → Shows read 0x00 seconds
    → Shows read 0x02 minutes
    → Shows read 0x04 hours
    → get_rtc_time read ≡ (
        if leb seconds 59 && (leb minutes 59 && leb hours 23)
        then some (seconds, (minutes, hours))
        else none)
unfolding get_rtc_time
get_rtc_time_lem read seconds minutes hours s m h =
    rw
      (
        get_rtc_time,
        decode_lem read 0x00 seconds s,
        decode_lem read 0x02 minutes m,
        decode_lem read 0x04 hours h,
      )
      (ground arith)

-- For a clock that shows two digits for each of the three values, in BCD or in binary as register
-- B says: a date with a day from 1 to 31 and a month from 1 to 12 is returned as it is, with any
-- year, and any other ends in the panic.
pub get_rtc_date_lem :
    (read : ℕ → ℕ) (day month year : ℕ)
    → Shows read 0x07 day
    → Shows read 0x08 month
    → Shows read 0x09 year
    → get_rtc_date read ≡ (
        if leb 1 day && (leb day 31 && (leb 1 month && leb month 12))
        then some (day, (month, year))
        else none)
unfolding get_rtc_date
get_rtc_date_lem read day month year d m y =
    rw
      (
        get_rtc_date,
        decode_lem read 0x07 day d,
        decode_lem read 0x08 month m,
        decode_lem read 0x09 year y,
      )
      (ground arith)
