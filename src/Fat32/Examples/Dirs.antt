-- ===== src/Fat32/Examples/Dirs.antt =====
-- The theorems about directories, names and writing on the small volume.
use minios_grub_bootloader.Base.{
  ℕ, ◌≡◌, refl, inl, inr, true, ◌||◌, Option, some, List, [], ◌∷◌, ◌++◌, arith, ◌==◌, if◌then◌else◌,
  Bool-cases, length-replicate, store_le32, length-store_le32, le32,
}
use minios_grub_bootloader.Fat32.Examples.{volume, volume-IsMounted, blank, table}
use minios_grub_bootloader.Fat32.Dir.{fat32_read_dir}
use minios_grub_bootloader.Fat32.Types.{File, zeroed_file}
use minios_grub_bootloader.Fat32.Names.{DirEntry, entry_name, name_field, str_to_upper}
use minios_grub_bootloader.Disk.{sectors, Disk, IsFormatted}
use minios_grub_bootloader.Disk.Ram.{ram, ram-Reads}
use minios_grub_bootloader.Libc.Strings.{CString}
use minios_grub_bootloader.Fat32.Table.{cluster_to_lba, fat32_next_cluster, fat32_read_cluster}
use minios_grub_bootloader.Fat32.Table.Entry.{fat32_read_cluster_lem}
use minios_grub_bootloader.Fat32.Io.{done}
use minios_grub_bootloader.Fat32.Names.Short.{ShortName, dotted, entry_name-short}
use minios_grub_bootloader.Fat32.Dir.Lookup.{IsFirstShown, fat32_read_dir-IsFirstShown}

-- An empty directory in cluster 2.
abbrev pub empty_disk : Disk
empty_disk k = if k == 1 || k == 2 then table else blank

pub empty_disk-IsFormatted : IsFormatted empty_disk
empty_disk-IsFormatted k = elim (Bool-cases (k == 1 || k == 2)) [
  | inl t ↦ rw t (simp (length-store_le32, length-replicate))
  | inr f ↦ rw f (length-replicate {A = ℕ} 512 0)
]

-- `a.c`
abbrev short_name : CString
short_name = 97 ∷ 46 ∷ 99 ∷ []

short_name-ShortName : ShortName short_name
short_name-ShortName =
    dotted (97 ∷ []) (99 ∷ []) ((omega arith, omega arith, omega arith), tt)
      ((omega arith, omega arith, omega arith), tt) (omega arith) (omega arith) (omega arith)

entry_name-short_example : entry_name (name_field short_name ++ []) ≡ str_to_upper short_name
entry_name-short_example = entry_name-short short_name [] short_name-ShortName

abbrev root_bytes : List ℕ
root_bytes = sectors empty_disk (cluster_to_lba volume 2) 1

abbrev root : File
root = record zeroed_file { start_cluster = 2; current_cluster = 2; is_dir = true }

root_reads : fat32_read_cluster ram volume 2 empty_disk ≡ some root_bytes
root_reads =
    fat32_read_cluster_lem ram-Reads volume-IsMounted 2 empty_disk (omega arith, omega arith)

root_end : fat32_next_cluster ram volume 2 empty_disk ≡ 0
unfolding fat32_next_cluster sectors le32 store_le32
root_end = refl

fat32_read_dir-IsFirstShown_example :
    (o : Option DirEntry × File) × (fat32_read_dir ram volume (λ f. []) 20 root empty_disk
      ≡ done o empty_disk)
    × IsFirstShown 15 root_bytes 2 o
fat32_read_dir-IsFirstShown_example =
    fat32_read_dir-IsFirstShown ram volume (λ f. []) empty_disk root_bytes (omega arith) 15 20 root
      (omega arith) refl refl refl root_reads root_end
