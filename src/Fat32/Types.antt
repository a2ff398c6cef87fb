-- ===== src/Fat32/Types.antt =====
-- The structures and constants of kernel/include/fs/fat32.h. A `char` of a directory entry is kept
-- as its byte.
use minios_grub_bootloader.Base.{ℕ, ◌+◌, ◌*◌, ◌^◌, ◌≤◌, ◌<◌, ◌≡◌, Bool, false}

abbrev pub attr_volume_id : ℕ
attr_volume_id = 0x08

abbrev pub attr_directory : ℕ
attr_directory = 0x10

abbrev pub attr_archive : ℕ
attr_archive = 0x20

abbrev pub attr_long_name : ℕ
attr_long_name = 0x0F

abbrev pub fat32_eoc : ℕ
fat32_eoc = 0x0FFFFFF8

abbrev pub fat32_mask : ℕ
fat32_mask = 0x0FFFFFFF

-- `fat32_ctx_t`, less `fsinfo`, which is filled by `fat32_init` and read by no function.
pub record Context : Type 0 where
  pub lba_start : ℕ
  pub bytes_per_sector : ℕ
  pub sectors_per_cluster : ℕ
  pub cluster_size : ℕ
  pub fat_start : ℕ
  pub fat_size : ℕ
  pub fat_count : ℕ
  pub data_start : ℕ
  pub root_cluster : ℕ
  pub total_clusters : ℕ

-- `fat32_file_t`, less the pointer to its context, which is an argument of the operations, and
-- `dir_index`, which no function uses.
pub record File : Type 0 where
  pub start_cluster : ℕ
  pub current_cluster : ℕ
  pub cluster_offset : ℕ
  pub file_offset : ℕ
  pub size : ℕ
  pub is_dir : Bool

-- `memset(file, 0, sizeof(fat32_file_t))`
abbrev pub zeroed_file : File
zeroed_file = record {
  start_cluster = 0;
  current_cluster = 0;
  cluster_offset = 0;
  file_offset = 0;
  size = 0;
  is_dir = false;
}

-- What `fat32_init` establishes for a volume whose sizes are consistent: the sector size of the
-- driver, tables in front of the data whose bytes a 32-bit offset reaches, data inside the 28-bit address space, and tables large
-- enough for the clusters.
pub record IsMounted (ctx : Context) : Type 0 where
  pub sector_bytes : ctx.bytes_per_sector ≡ 512
  pub cluster_pos : 0 < ctx.sectors_per_cluster
  pub cluster_lt : ctx.sectors_per_cluster < 256
  pub cluster_bytes : ctx.cluster_size ≡ 512 * ctx.sectors_per_cluster
  pub copies : 0 < ctx.fat_count
  pub tables : ctx.fat_start + ctx.fat_count * ctx.fat_size ≤ ctx.data_start
  pub data_fits : ctx.data_start + ctx.total_clusters * ctx.sectors_per_cluster ≤ 2 ^ 28
  pub table_lt : ctx.fat_size < 2 ^ 23
  pub covered : ctx.total_clusters + 2 ≤ ctx.fat_size * 128

-- A cluster of the data area.
abbrev pub InRange : Context → ℕ → Type 0
InRange ctx cluster = (2 ≤ cluster) × (cluster < ctx.total_clusters + 2)
