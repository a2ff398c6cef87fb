-- ===== src/Fat32/Stamp/Fields.antt =====
-- The fields of a packed time can be had back.
use minios_grub_bootloader.Base.{
  ℕ, ◌+◌, ◌-◌, ◌*◌, ◌/◌, ◌%◌, ◌^◌, ◌<◌, bit_or, ◌≡◌, refl, ap, ◌∙◌, arith, leb, if◌then◌else◌,
  bit_and_mask, bit_or_fields,
}
use minios_grub_bootloader.Fat32.Stamp.{time_to_fat, date_to_fat}

-- Three fields that do not overlap make a sum.
pack_fields :
    (i j p a b c : ℕ)
    → 2 ^ i ≡ p * 2 ^ j
    → b * 2 ^ j + c < 2 ^ i
    → c < 2 ^ j
    → bit_or (bit_or (a * 2 ^ i) (b * 2 ^ j)) c ≡ a * 2 ^ i + b * 2 ^ j + c
pack_fields i j p a b c e h k =
    let high : a * 2 ^ i ≡ a * p * 2 ^ j = omega (arith, ap (λ (t : ℕ). a * t) e) in
    ap (λ t. bit_or t c) (bit_or_fields i a (b * 2 ^ j) (omega arith))
    ∙ ap (λ t. bit_or t c) (omega (arith, high))
    ∙ bit_or_fields j (a * p + b) c k
    ∙ omega (arith, high)

time_to_fat_as_sum :
    (hours minutes seconds : ℕ)
    → hours < 24
    → minutes < 60
    → seconds < 60
    → time_to_fat hours minutes seconds ≡ hours * 2 ^ 11 + minutes * 2 ^ 5 + seconds / 2
unfolding time_to_fat
time_to_fat_as_sum hours minutes seconds h m s =
    rw (bit_and_mask 5 hours, bit_and_mask 6 minutes, bit_and_mask 5 (seconds / 2))
      (rw
        (pack_fields 11 5 64 (hours % 2 ^ 5) (minutes % 2 ^ 6) (seconds / 2 % 2 ^ 5) refl
          (omega arith) (omega arith))
        (omega arith))

-- A time with an hour below 24 and minutes and seconds below 60 keeps its hour and minute, and its
-- second rounded down to an even one.
pub time_to_fat_fields :
    (hours minutes seconds : ℕ)
    → hours < 24
    → minutes < 60
    → seconds < 60
    → let t = time_to_fat hours minutes seconds in
      (t / 2 ^ 11 ≡ hours) × (t / 2 ^ 5 % 2 ^ 6 ≡ minutes) × (t % 2 ^ 5 * 2 ≡ seconds - seconds % 2)
time_to_fat_fields hours minutes seconds h m s =
    omega (arith, time_to_fat_as_sum hours minutes seconds h m s)

date_to_fat_as_sum :
    (day month year : ℕ)
    → day < 32
    → month < 16
    → year < 100
    → date_to_fat day month year
      ≡ (if leb 80 year then year - 80 else year + 20) * 2 ^ 9 + month * 2 ^ 5 + day
unfolding date_to_fat
date_to_fat_as_sum day month year a b c =
    rw (bit_and_mask 7 _, bit_and_mask 4 month, bit_and_mask 5 day)
      (rw (pack_fields 9 5 16 _ (month % 2 ^ 4) (day % 2 ^ 5) refl (ground arith) (omega arith))
        (ground arith))

-- A date with a day below 32, a month below 16 and a two-digit year, read as one from 1980 to
-- 2079, keeps its day, its month and its year, which is stored as the number of years since 1980.
pub date_to_fat_fields :
    (day month year : ℕ)
    → day < 32
    → month < 16
    → year < 100
    → let d = date_to_fat day month year in
      (d % 2 ^ 5 ≡ day)
      × (d / 2 ^ 5 % 2 ^ 4 ≡ month)
      × (1980 + d / 2 ^ 9 ≡ (if leb 80 year then 1900 + year else 2000 + year))
date_to_fat_fields day month year a b c = ground (arith, date_to_fat_as_sum day month year a b c)
