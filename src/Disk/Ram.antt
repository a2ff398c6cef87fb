-- ===== src/Disk/Ram.antt =====
-- A driver that meets the law of reading: a disk in memory.
use minios_grub_bootloader.Base.{refl, true, some}
use minios_grub_bootloader.Disk.{Driver, sectors, put_sectors, Reads}

abbrev pub ram : Driver
ram = record {
  read_sectors = λ lba count d. some (sectors d lba count);
  write_sectors = λ lba count buffer d. (true, put_sectors lba count buffer d);
}

pub ram-Reads : Reads ram
ram-Reads = record { reads = λ lba count d p q r. refl }
