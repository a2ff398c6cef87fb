-- ===== src/Disk.antt =====
-- What the file system asks of the disk driver (kernel/include/drivers/pata_pio.h): two operations
-- on a disk of sectors, and the laws that a client may rest on. Reading and writing have separate
-- laws, so that a statement about reading asks nothing of the writes.
pub mod Memory
pub mod Ram
use minios_grub_bootloader.Base.{
  ℕ, zero, suc, ◌+◌, ◌-◌, ◌*◌, ◌/◌, ◌%◌, ◌^◌, ◌≤◌, ◌<◌, min, bit_and, bit_or, ◌≡◌, refl, sym, ap,
  ap₂, ◌∙◌, ◌≢◌, ◌↔◌, ◌⊎◌, inl, inr, Bool, true, false, not, ◌&&◌, ◌||◌, Option, none, some, List,
  [], ◌∷◌, ◌++◌, map, append-nil, append_assoc, arith, ltb, leb, ◌==◌, if◌then◌else◌, Bool-cases,
  Option-cases, u8, u16, u32, ◌<<<◌, ◌>>>◌, length, get_elem?, get_or, set, take, drop, replicate,
  ℤ, pos, negsuc, sub_ℕ,
}

-- The bytes of each sector, by its logical block address.
abbrev pub Disk : Type 0
Disk = ℕ → List ℕ

-- ATA_SECTOR_SIZE
abbrev pub sector_size : ℕ
sector_size = 512

-- A 28-bit address register.
abbrev pub lba_limit : ℕ
lba_limit = 2 ^ 28

-- `none` is a result of `false`, after which the buffer is not read by any caller.
pub record Driver : Type 0 where
  pub read_sectors : ℕ → ℕ → Disk → Option (List ℕ)
  pub write_sectors : ℕ → ℕ → List ℕ → Disk → Bool × Disk

-- `count` sectors from `lba` on.
unfoldable pub sectors : Disk → ℕ → ℕ → List ℕ
sectors d lba zero = []
sectors d lba (suc n) = d lba ++ sectors d (lba + 1) n

-- The disk with the bytes of `buffer` in `count` sectors from `lba` on.
unfoldable pub put_sectors : ℕ → ℕ → List ℕ → Disk → Disk
put_sectors lba count buffer d k =
    if leb lba k && ltb k (lba + count)
    then take sector_size (drop ((k - lba) * sector_size) buffer)
    else d k

abbrev pub IsFormatted : Disk → Type 0
IsFormatted d = (k : ℕ) → length (d k) ≡ sector_size

-- A read of sectors that the disk has succeeds and gives their bytes.
pub record Reads (drv : Driver) : Type 0 where
  pub reads :
      (lba count : ℕ) (d : Disk)
      → 0 < count
      → count < 256
      → lba + count ≤ lba_limit
      → drv.read_sectors lba count d ≡ some (sectors d lba count)

-- A write of one sector that the disk has succeeds and stores an image of the buffer there. The driver of
-- the repository does not send the bytes of the buffer as they are.
pub record Stores (drv : Driver) (image : List ℕ → List ℕ) : Type 0 where
  pub stores :
      (lba : ℕ) (buffer : List ℕ) (d : Disk)
      → lba < lba_limit
      → length buffer ≡ sector_size
      → drv.write_sectors lba 1 buffer d ≡ (true, put_sectors lba 1 (image buffer) d)
  pub length-image :
      (buffer : List ℕ) → length buffer ≡ sector_size → length (image buffer) ≡ sector_size
