-- ===== src/Cpu/Pic.antt =====
-- Programming the interrupt controllers and the timer: kernel/src/cpu/pic.c with
-- kernel/include/cpu/pic.h, and `timer_init` of kernel/src/drivers/timer.c. What a function writes to
-- ports is the list of its writes, port and value.
pub mod Rate
use minios_grub_bootloader.Base.{
  ℕ, ◌/◌, bit_and, Option, none, some, List, [], ◌∷◌, ◌==◌, if◌then◌else◌, u8, ◌>>>◌,
}

abbrev pub pic1_command : ℕ
pic1_command = 0x20

abbrev pub pic1_data : ℕ
pic1_data = 0x21

abbrev pub pic2_command : ℕ
pic2_command = 0xA0

abbrev pub pic2_data : ℕ
pic2_data = 0xA1

abbrev pub Writes : Type 0
Writes = List (ℕ × ℕ)

pub pic_remap : ℕ → ℕ → Writes
pic_remap offset1 offset2 =
    (pic1_command, 0x11)
    ∷ (pic2_command, 0x11)
    ∷ (pic1_data, offset1)
    ∷ (pic2_data, offset2)
    ∷ (pic1_data, 0x4)
    ∷ (pic2_data, 0x2)
    ∷ (pic1_data, 0x01)
    ∷ (pic2_data, 0x01)
    ∷ (pic1_data, 0x00)
    ∷ (pic2_data, 0x00)
    ∷ []

-- The writes of `timer_init`; `none` is the division by zero.
unfoldable pub timer_writes : ℕ → Option Writes
timer_writes frequency =
    let divisor = 1193180 / frequency in
    if frequency == 0
    then none
    else some (
        (0x43, 0x36)
        ∷ (0x40, u8 (bit_and divisor 0xFF))
        ∷ (0x40, u8 (bit_and (divisor >>> 8) 0xFF))
        ∷ [])
