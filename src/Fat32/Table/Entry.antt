-- ===== src/Fat32/Table/Entry.antt =====
-- A table entry on the disk, and the reads of it.
use minios_grub_bootloader.Base.{
  ℕ, ◌+◌, ◌-◌, ◌*◌, ◌/◌, ◌%◌, ◌^◌, ◌≤◌, ◌<◌, ◌≡◌, ap, ◌∙◌, some, arith, leb, if◌then◌else◌, u32,
  le32, bit_and_mask,
}
use minios_grub_bootloader.Disk.{Disk, Driver, Reads, sectors}
use minios_grub_bootloader.Disk.Memory.{sectors-one}
use minios_grub_bootloader.Fat32.Types.{Context, IsMounted, InRange, fat32_eoc}
use minios_grub_bootloader.Fat32.Table.{
  cluster_to_lba, fat_sector, entry_offset, fat32_read_cluster, fat32_next_cluster,
}

-- Where the first table holds the entry of a cluster: 128 entries of 4 bytes to a sector.
abbrev pub table_sector : Context → ℕ → ℕ
table_sector ctx cluster = ctx.fat_start + cluster / 128

abbrev pub table_offset : ℕ → ℕ
table_offset cluster = cluster % 128 * 4

-- The 28-bit entry of a cluster in the first table.
abbrev pub entry : Context → Disk → ℕ → ℕ
entry ctx d cluster = le32 (d (table_sector ctx cluster)) (table_offset cluster) % 2 ^ 28

module _ {ctx : Context} (m : IsMounted ctx) where
  pub tables_fit : ctx.fat_start + ctx.fat_size ≤ ctx.data_start
  tables_fit = grind (arith, m.tables, m.copies)

  pub clusters_few : ctx.total_clusters ≤ 2 ^ 28
  clusters_few =
      let product : ctx.total_clusters ≤ ctx.total_clusters * ctx.sectors_per_cluster =
        grind (arith, m.cluster_pos) in
      omega arith

  pub table_low : ctx.fat_start + ctx.fat_size ≤ 2 ^ 28
  table_low = let fit = tables_fit in let few = clusters_few in omega (arith, m.data_fits)

  -- The tables take room, so that no cluster of the volume is an end-of-chain mark.
  pub clusters_below_eoc : ctx.total_clusters + 2 ≤ fat32_eoc
  clusters_below_eoc =
      let product : ctx.total_clusters ≤ ctx.total_clusters * ctx.sectors_per_cluster =
        grind (arith, m.cluster_pos) in
      let tables = tables_fit in omega (arith, m.data_fits, m.covered)

  -- The sector of an entry lies in the first table, and its computation does not wrap.
  pub fat_sector_lem :
      (cluster : ℕ)
      → InRange ctx cluster
      → (fat_sector ctx cluster ≡ table_sector ctx cluster)
        × (entry_offset ctx cluster ≡ table_offset cluster)
        × (table_sector ctx cluster < ctx.fat_start + ctx.fat_size)
        × (ctx.fat_start + ctx.fat_size ≤ 2 ^ 28)
  fat_sector_lem cluster r =
      let tables = tables_fit in
      let few = clusters_few in let bytes = m.sector_bytes in rw bytes (omega arith)

  cluster_fits :
      (cluster : ℕ)
      → InRange ctx cluster
      → (cluster - 2) * ctx.sectors_per_cluster + ctx.sectors_per_cluster
        ≤ ctx.total_clusters * ctx.sectors_per_cluster
  cluster_fits cluster r = grind arith

  -- On a mounted volume the sectors of one of its clusters lie in the data area, and their address
  -- does not wrap.
  pub cluster_to_lba_lem :
      (cluster : ℕ)
      → InRange ctx cluster
      → (cluster_to_lba ctx cluster ≡ ctx.data_start + (cluster - 2) * ctx.sectors_per_cluster)
        × (cluster_to_lba ctx cluster + ctx.sectors_per_cluster ≤ 2 ^ 28)
        × (ctx.data_start ≤ cluster_to_lba ctx cluster)
  unfolding cluster_to_lba
  cluster_to_lba_lem cluster r =
      let few = clusters_few in
      let base : u32 (cluster + 2 ^ 32 - 2) ≡ cluster - 2 = omega arith in
      let fits = cluster_fits cluster r in rw base (omega arith)

module _ {drv : Driver} (r : Reads drv) {ctx : Context} (m : IsMounted ctx) where
  pub read_fat_sector :
      (cluster : ℕ) (d : Disk)
      → InRange ctx cluster
      → drv.read_sectors (fat_sector ctx cluster) 1 d ≡ some (d (table_sector ctx cluster))
  read_fat_sector cluster d c =
      let at = fat_sector_lem m cluster c in
      rw at.0 (
        r.reads (table_sector ctx cluster) 1 d (omega arith) (omega arith) (omega arith)
        ∙ ap some (sectors-one d (table_sector ctx cluster)))

  -- `fat32_next_cluster` is the entry of the cluster, or 0 at an end-of-chain mark.
  pub fat32_next_cluster_lem :
      (cluster : ℕ) (d : Disk)
      → InRange ctx cluster
      → fat32_next_cluster drv ctx cluster d
        ≡ (if leb fat32_eoc (entry ctx d cluster) then 0 else entry ctx d cluster)
  unfolding fat32_next_cluster
  fat32_next_cluster_lem cluster d c = rw (
    read_fat_sector cluster d c,
    fat32_next_cluster,
    (fat_sector_lem m cluster c).1,
    bit_and_mask 28 (le32 (d (table_sector ctx cluster)) (table_offset cluster)),
  )

  -- `fat32_read_cluster` gives the bytes of the cluster's sectors.
  pub fat32_read_cluster_lem :
      (cluster : ℕ) (d : Disk)
      → InRange ctx cluster
      → fat32_read_cluster drv ctx cluster d
        ≡ some (sectors d (cluster_to_lba ctx cluster) ctx.sectors_per_cluster)
  unfolding fat32_read_cluster
  fat32_read_cluster_lem cluster d c =
      r.reads (cluster_to_lba ctx cluster) ctx.sectors_per_cluster d m.cluster_pos m.cluster_lt
        (cluster_to_lba_lem m cluster c).1
