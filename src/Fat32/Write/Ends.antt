-- ===== src/Fat32/Write/Ends.antt =====
-- `fat32_write` ends.
use minios_grub_bootloader.Base.{ℕ, ◌+◌, ◌≡◌, Bool, true, Option, none, some, u32}
use minios_grub_bootloader.Fat32.Write.{cluster_to_lba}
use minios_grub_bootloader.Fat32.Io.{done, Outcome}
use minios_grub_bootloader.Fat32.Table.{cluster_to_lba}
use minios_grub_bootloader.Disk.{Disk}
use minios_grub_bootloader.Fat32.Types.{File}

-- The operation returns, and if it says that everything is written, the file stands `n` bytes further.
abbrev pub Returns : File → ℕ → Outcome (Bool × File) → Type 0
Returns file n o =
    (whole : Bool) × (file' : File) × (d : Disk) × (o ≡ done (whole, file') d)
    × (whole ≡ true → file'.file_offset ≡ u32 (file.file_offset + n))

-- The file after a step that may fail stands at this offset.
abbrev StandsAt : ℕ → Option File → Type 0
StandsAt offset none = Unit {0}
StandsAt offset (some file) = file.file_offset ≡ offset
