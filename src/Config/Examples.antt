-- ===== src/Config/Examples.antt =====
-- The theorems about lines and configuration files on a volume of one file with two lines.
use minios_grub_bootloader.Fat32.File.Line.Prefix.{IsFirstLine}
use minios_grub_bootloader.Base.{
  Bool, ℕ, zero, suc, ◌*◌, ◌<◌, ◌≡◌, ◌≢◌, refl, inl, inr, false, some, List, [], ◌∷◌, Option, ◌++◌,
  arith, ◌==◌, if◌then◌else◌, Bool-cases, replicate, codes, store_le32, length-store_le32,
  length-replicate,
}
use minios_grub_bootloader.Disk.{Disk, IsFormatted, sectors}
use minios_grub_bootloader.Disk.Ram.{ram, ram-Reads}
use minios_grub_bootloader.Fat32.Types.{Context, File, IsMounted, InRange}
use minios_grub_bootloader.Fat32.Table.{cluster_to_lba}
use minios_grub_bootloader.Fat32.File.Contents.{nth_cluster, contents}
use minios_grub_bootloader.Fat32.File.Read.Round.{IsOpen}
use minios_grub_bootloader.Fat32.File.Line.{fat32_read_line}
use minios_grub_bootloader.Fat32.File.Line.Turn.{left_of, IsLine}
use minios_grub_bootloader.Fat32.File.Line.First.{fat32_read_line-IsLine}
use minios_grub_bootloader.Config.{config_get_str}
use minios_grub_bootloader.Config.Lookup.{result}
use minios_grub_bootloader.Config.Fields.{Entry, IsEntry, AllEntries}
use minios_grub_bootloader.Config.Entries.{entries_text, IsFirst, config_get_str-IsFirst}
use minios_grub_bootloader.Libc.Strings.{CString}

abbrev volume : Context
volume = record {
  lba_start = 0;
  bytes_per_sector = 512;
  sectors_per_cluster = 1;
  cluster_size = 512;
  fat_start = 1;
  fat_size = 1;
  fat_count = 1;
  data_start = 2;
  root_cluster = 2;
  total_clusters = 4;
}

volume-IsMounted : IsMounted volume
volume-IsMounted = record {
  sector_bytes = refl;
  cluster_pos = omega arith;
  cluster_lt = omega arith;
  cluster_bytes = refl;
  copies = omega arith;
  tables = omega arith;
  data_fits = omega arith;
  table_lt = omega arith;
  covered = omega arith;
}

abbrev two_lines : List ℕ
two_lines = codes "a=b\nc=7\n"

abbrev disk : Disk
disk k =
    if k == 1
    then store_le32 (replicate 512 0) 12 0x0FFFFFFF
    else (if k == 3 then two_lines ++ replicate 504 0 else replicate 512 0)

disk-IsFormatted : IsFormatted disk
disk-IsFormatted k = elim (Bool-cases (k == 1)) [
  | inl table ↦ rw table (simp (length-store_le32, length-replicate))
  | inr other ↦ elim (Bool-cases (k == 3)) [
    | inl text ↦ rw (other, text) refl
    | inr empty ↦ rw (other, empty) (length-replicate {A = ℕ} 512 0)
  ]
]

abbrev file : File
file = record {
  start_cluster = 3;
  current_cluster = 3;
  cluster_offset = 0;
  file_offset = 0;
  size = 8;
  is_dir = false;
}

file_chain : (k : ℕ) → k * 512 < 8 → InRange volume (nth_cluster ram volume disk 3 k)
unfolding nth_cluster
file_chain zero h = (omega arith, omega arith)
file_chain (suc k) h = absurd (omega arith)

file-IsOpen : IsOpen ram volume disk file
unfolding nth_cluster
file-IsOpen = record {
  chain = file_chain;
  size_fits = omega arith;
  offset_in = omega arith;
  cluster_at = λ h. refl;
  within_cluster = λ h. refl;
}

fat32_read_line-IsLine_example :
    (line : List ℕ × Bool) × IsFirstLine 31 (left_of ram volume disk file) line
    × IsLine ram volume disk 0 3 8 line (fat32_read_line ram volume disk file 32)
fat32_read_line-IsLine_example =
    fat32_read_line-IsLine ram volume disk ram-Reads volume-IsMounted disk-IsFormatted file 32 refl
      file-IsOpen (omega arith) (omega arith) (omega arith)

file_text : contents ram volume disk 3 0 8 ≡ two_lines
unfolding contents nth_cluster sectors cluster_to_lba
file_text = refl

abbrev entries : List Entry
entries =
    record { key = codes "a"; value = codes "b" }
    ∷ record { key = codes "c"; value = codes "7" }
    ∷ []

-- A key and a value of one letter each.
letters-IsEntry :
    (k v : ℕ)
    → (0 < k) × (k ≢ 10) × (k ≢ 61)
    → (0 < v) × (v ≢ 10) × (v ≢ 61)
    → IsEntry (record { key = k ∷ []; value = v ∷ [] })
letters-IsEntry k v p q = record {
  key_plain = (p, tt);
  value_plain = (q, tt);
  has_key = omega arith;
  fits = omega arith;
}

entries-AllEntries : AllEntries entries
entries-AllEntries = (
  letters-IsEntry 97 98 (omega arith, λ h. omega (arith, h), λ h. omega (arith, h))
      (omega arith, λ h. omega (arith, h), λ h. omega (arith, h)),
  (
    letters-IsEntry 99 55 (omega arith, λ h. omega (arith, h), λ h. omega (arith, h))
        (omega arith, λ h. omega (arith, h), λ h. omega (arith, h)),
    tt,
  ),
)

entries_bytes : contents ram volume disk 3 0 8 ≡ entries_text entries
unfolding contents nth_cluster sectors cluster_to_lba entries_text
entries_bytes = refl

config_get_str-IsFirst_example :
    (value : Option CString) × (config_get_str ram volume disk file (codes "c") 16
      ≡ some (result value 16))
    × IsFirst (codes "c") entries value
config_get_str-IsFirst_example =
    config_get_str-IsFirst ram-Reads volume-IsMounted disk-IsFormatted (codes "c") 16 file entries
      (omega arith, tt) entries-AllEntries entries_bytes refl refl file-IsOpen (omega arith)
