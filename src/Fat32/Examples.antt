-- ===== src/Fat32/Examples.antt =====
-- The theorems about fat32.c on a small volume: two tables of one sector each, four clusters of one
-- sector, and a file of 600 bytes in the clusters 3 and 4.
pub mod Dirs
use minios_grub_bootloader.Base.{
  set, le16, inr, le32, ℕ, zero, suc, ◌+◌, ◌-◌, ◌*◌, ◌/◌, ◌%◌, ◌^◌, ◌≤◌, ◌<◌, min, ◌≡◌, refl, inl,
  true, false, ◌||◌, some, List, [], arith, ◌==◌, if◌then◌else◌, Bool-cases, replicate, store_le32,
  length-store_le32, length-replicate,
}
use minios_grub_bootloader.Fat32.Init.{mounted, fat32_init}
use minios_grub_bootloader.Fat32.Init.Mounts.{IsDescribed, IsBootSector, fat32_init-IsMounted}
use minios_grub_bootloader.Disk.{put_sectors, Stores, Driver, Reads, sectors, Disk, IsFormatted}
use minios_grub_bootloader.Disk.Ram.{ram, ram-Reads}
use minios_grub_bootloader.Fat32.Types.{Context, File, IsMounted, InRange}
use minios_grub_bootloader.Fat32.Table.{
  cluster_to_lba, fat32_next_cluster, set_fat_entry, find_free_cluster,
}
use minios_grub_bootloader.Fat32.Table.Entry.{cluster_to_lba_lem}
use minios_grub_bootloader.Fat32.Table.Link.{IsMirrored, set_fat_entry-IsMirrored}
use minios_grub_bootloader.Ata.Transfer.{sector_image, length-sector_image}
use minios_grub_bootloader.Fat32.Table.Free.{IsFirstFree, find_free_cluster-IsFirstFree}
use minios_grub_bootloader.Fat32.File.{Got, fat32_read, fat32_seek}
use minios_grub_bootloader.Fat32.File.Contents.{nth_cluster, contents}
use minios_grub_bootloader.Fat32.File.Read.{fat32_read-IsRead}
use minios_grub_bootloader.Fat32.File.Read.Round.{IsOpen, IsRead}
use minios_grub_bootloader.Fat32.File.Seek.{fat32_seek_full, fat32_read-fat32_seek}
use minios_grub_bootloader.Fat32.Stamp.{time_to_fat, date_to_fat}
use minios_grub_bootloader.Fat32.Stamp.Fields.{time_to_fat_fields, date_to_fat_fields}

abbrev pub volume : Context
volume = record {
  lba_start = 0;
  bytes_per_sector = 512;
  sectors_per_cluster = 1;
  cluster_size = 512;
  fat_start = 1;
  fat_size = 1;
  fat_count = 2;
  data_start = 3;
  root_cluster = 2;
  total_clusters = 4;
}

pub volume-IsMounted : IsMounted volume
volume-IsMounted = record {
  sector_bytes = refl;
  cluster_pos = omega arith;
  cluster_lt = omega arith;
  cluster_bytes = refl;
  copies = omega arith;
  tables = omega arith;
  data_fits = omega arith;
  table_lt = omega arith;
  covered = omega arith;
}

abbrev blank : List ℕ
blank = replicate 512 0

abbrev table : List ℕ
table = store_le32 (store_le32 (store_le32 blank 8 0x0FFFFFFF) 12 4) 16 0x0FFFFFFF

abbrev pub disk : Disk
disk k = if k == 1 || k == 2 then table else replicate 512 (k % 256)

pub disk-IsFormatted : IsFormatted disk
disk-IsFormatted k = elim (Bool-cases (k == 1 || k == 2)) [
  | inl t ↦ rw t (simp (length-store_le32, length-replicate))
  | inr f ↦ rw f (length-replicate 512 (k % 256))
]

-- A disk that stores the words that pata_pio.c sends.
abbrev sends_neighbours : Driver
sends_neighbours = record {
  read_sectors = λ lba count d. some (sectors d lba count);
  write_sectors = λ lba count buffer d.
      (true, put_sectors lba count (if count == 1 then sector_image buffer else buffer) d);
}

sends_neighbours-Reads : Reads sends_neighbours
sends_neighbours-Reads = record { reads = λ lba count d p q r. refl }

sends_neighbours-Stores : Stores sends_neighbours sector_image
sends_neighbours-Stores = record {
  stores = λ lba buffer d p q. refl;
  length-image = λ buffer q. length-sector_image buffer;
}

set_fat_entry-IsMirrored_example :
    (d' : Disk) × (set_fat_entry sends_neighbours volume 4 5 disk ≡ (true, d'))
    × IsMirrored sector_image volume 4 5 disk d'
set_fat_entry-IsMirrored_example =
    set_fat_entry-IsMirrored sends_neighbours-Reads sends_neighbours-Stores volume-IsMounted 4 5
      disk (omega arith, omega arith) disk-IsFormatted

find_free_cluster-IsFirstFree_example : IsFirstFree volume disk (find_free_cluster ram volume disk)
find_free_cluster-IsFirstFree_example =
    find_free_cluster-IsFirstFree disk ram-Reads volume-IsMounted

abbrev pub file : ℕ → File
file size = record {
  start_cluster = 3;
  current_cluster = 3;
  cluster_offset = 0;
  file_offset = 0;
  size = size;
  is_dir = false;
}

pub second_cluster : nth_cluster ram volume disk 3 1 ≡ 4
unfolding nth_cluster fat32_next_cluster sectors le32 store_le32
second_cluster = refl

file_chain : (k : ℕ) → k * 512 < 600 → InRange volume (nth_cluster ram volume disk 3 k)
unfolding nth_cluster
file_chain zero h = (omega arith, omega arith)
file_chain (suc zero) h = rw second_cluster (omega arith, omega arith)
file_chain (suc (suc k)) h = absurd (omega arith)

file-IsOpen : IsOpen ram volume disk (file 600)
unfolding nth_cluster
file-IsOpen = record {
  chain = file_chain;
  size_fits = omega arith;
  offset_in = omega arith;
  cluster_at = λ h. refl;
  within_cluster = λ h. refl;
}

fat32_read-IsRead_example :
    IsRead ram volume disk
      (file 600)
      []
      0
      (min 1000 600)
      (fat32_read ram volume disk (file 600) 1000)
fat32_read-IsRead_example =
    fat32_read-IsRead ram volume disk ram-Reads volume-IsMounted disk-IsFormatted (file 600) 1000
      refl file-IsOpen

-- A disk with the boot sector of a volume like the one above.
abbrev first_sector : List ℕ
first_sector =
    set (set (set (set (set (set (set (set blank 12 2) 13 1) 14 1) 16 2) 32 7) 36 1) 44 2) 66 0x29

abbrev boot_disk : Disk
boot_disk k = first_sector

first_sector-IsBootSector : IsBootSector 0 (sectors boot_disk 0 1)
unfolding sectors le16 le32
first_sector-IsBootSector = record {
  signature = inr refl;
  sector_bytes = refl;
  cluster_pos = omega arith;
  cluster_lt = omega arith;
  copies = omega arith;
  table_lt = omega arith;
  total_lt = omega arith;
  data_inside = omega arith;
  covered = omega arith;
}

fat32_init-IsMounted_example :
    (ctx : Context) × (fat32_init ram 0 boot_disk ≡ mounted ctx)
    × IsDescribed 0 (sectors boot_disk 0 1) ctx
    × IsMounted ctx
fat32_init-IsMounted_example =
    fat32_init-IsMounted 0 boot_disk ram-Reads first_sector-IsBootSector (omega arith)

fat32_read-fat32_seek_example :
    (f' : File) × (got : Got) × (fat32_seek ram volume disk (file 600) 510 ≡ some (true, f'))
    × (fat32_read ram volume disk f' 20 ≡ some got)
    × (got.out ≡ contents ram volume disk 3 510 (min 20 (600 - 510)))
    × (got.count ≡ min 20 (600 - 510))
fat32_read-fat32_seek_example =
    fat32_read-fat32_seek ram volume disk ram-Reads volume-IsMounted disk-IsFormatted (file 600) 510
      20 refl file-IsOpen (omega arith)
