-- ===== src/Fat32/Init.antt =====
-- Mounting: `fat32_init` of fat32.c. A field of `fat32_boot_sector_t` is read at its offset in the
-- packed structure.
pub mod Mounts
use minios_grub_bootloader.Base.{
  ℕ, zero, suc, ◌+◌, ◌-◌, ◌*◌, ◌/◌, ◌%◌, ◌^◌, ◌≤◌, ◌<◌, min, bit_and, bit_or, ◌≡◌, refl, sym, ap,
  ap₂, ◌∙◌, ◌≢◌, ◌↔◌, ◌⊎◌, inl, inr, Bool, true, false, not, ◌&&◌, ◌||◌, Option, none, some, List,
  [], ◌∷◌, ◌++◌, map, append-nil, append_assoc, arith, ltb, leb, ◌==◌, if◌then◌else◌, Bool-cases,
  Option-cases, u8, u16, u32, ◌<<<◌, ◌>>>◌, length, get_elem?, get_or, set, take, drop, replicate,
  byte_at, le16, le32,
}
use minios_grub_bootloader.Disk.{Disk, Driver}
use minios_grub_bootloader.Fat32.Types.{Context}

-- `faults` is the division by a cluster size of 0.
pub data Mount : Type 0 where
  failed : Mount
  faults : Mount
  mounted : Context → Mount

-- `fat_size`
abbrev pub fat_sectors : List ℕ → ℕ
fat_sectors bs = if le16 bs 22 == 0 then le32 bs 36 else le16 bs 22

-- The context that is filled from the boot sector.
pub boot_context : ℕ → List ℕ → Context
boot_context lba_start bs =
    let fat_start = u32 (lba_start + le16 bs 14) in
    let tables = u32 (byte_at bs 16 * fat_sectors bs) in
    record {
      lba_start = lba_start;
      bytes_per_sector = le16 bs 11;
      sectors_per_cluster = byte_at bs 13;
      cluster_size = u32 (le16 bs 11 * byte_at bs 13);
      fat_start = fat_start;
      fat_size = fat_sectors bs;
      fat_count = byte_at bs 16;
      data_start = u32 (fat_start + tables);
      root_cluster = le32 bs 44;
      total_clusters = u32 (le32 bs 32 + 2 ^ 33 - le16 bs 14 - tables) / byte_at bs 13;
    }

-- What the read of the information sector leaves in `fsinfo` is not part of the context.
pub fat32_init : Driver → ℕ → Disk → Mount
fat32_init drv lba_start d = elim (drv.read_sectors lba_start 1 d) [
  | none ↦ failed
  | some bs ↦
      if not (byte_at bs 66 == 0x28) && not (byte_at bs 66 == 0x29)
      then failed
      else if byte_at bs 13 == 0
      then faults
      else mounted (boot_context lba_start bs)
]
