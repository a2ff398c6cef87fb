-- ===== src/Cpu/Pic/Rate.antt =====
-- The rate that `timer_init` of timer.c programs.
use minios_grub_bootloader.Base.{
  ℕ, ◌+◌, ◌*◌, ◌/◌, ◌%◌, ◌^◌, ◌≤◌, ◌<◌, bit_and, ◌≡◌, refl, Option, some, [], ◌∷◌, arith, u8, ◌>>>◌,
  bit_and_mask, test_of_ne,
}
use minios_grub_bootloader.Cpu.Pic.{Writes, timer_writes}

-- The two bytes make the count that the timer goes back to.
pub record Programs (frequency : ℕ) (writes : Option Writes) : Type 0 where
  pub low : ℕ
  pub high : ℕ
  pub sent : writes ≡ some ((0x43, 0x36) ∷ (0x40, low) ∷ (0x40, high) ∷ [])
  pub bytes : (low < 2 ^ 8) × (high < 2 ^ 8)
  pub counts : 0 < low + high * 2 ^ 8
  pub not_slower : (low + high * 2 ^ 8) * frequency ≤ 1193180
  pub nearest : 1193180 < (low + high * 2 ^ 8 + 1) * frequency

-- For a frequency from 19 Hz up to that of the clock, `timer_init` sends the command and then two bytes, low one
-- first, which make a count that is not 0, the greatest one that divides the clock of 1193180 Hz into that frequency or
-- a higher one.
pub timer_writes-Programs :
    (frequency : ℕ)
    → 19 ≤ frequency
    → frequency ≤ 1193180
    → Programs frequency (timer_writes frequency)
unfolding timer_writes
timer_writes-Programs frequency fast slow =
    let d = 1193180 / frequency in
    let split : d * frequency + 1193180 % frequency ≡ 1193180 = grind arith in
    let small : d < 2 ^ 16 = grind arith in
    let low = bit_and_mask 8 d in
    let high = bit_and_mask 8 (d / 2 ^ 8) in
    let count : u8 (bit_and d 0xFF) + u8 (bit_and (d >>> 8) 0xFF) * 2 ^ 8 ≡ d = omega arith in
    record {
      low = u8 (bit_and d 0xFF);
      high = u8 (bit_and (d >>> 8) 0xFF);
      sent = rw (test_of_ne frequency 0 (λ e. omega (arith, e))) refl;
      bytes = (omega arith, omega arith);
      counts = rw count (grind arith);
      not_slower = rw count (grind arith);
      nearest = rw count (grind arith);
    }
