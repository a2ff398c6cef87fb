-- ===== src/Fat32/Table.antt =====
-- The cluster map of fat32.c: `cluster_to_lba`, `find_free_cluster`, `set_fat_entry`,
-- `fat32_next_cluster` and `fat32_read_cluster`, over any driver. A `uint32_t` wraps.
pub mod Entry
pub mod Link
pub mod Free
pub mod Data
use minios_grub_bootloader.Base.{
  ℕ, zero, suc, ◌+◌, ◌-◌, ◌*◌, ◌/◌, ◌%◌, ◌^◌, ◌≤◌, ◌<◌, min, bit_and, bit_or, ◌≡◌, refl, sym, ap,
  ap₂, ◌∙◌, ◌≢◌, ◌↔◌, ◌⊎◌, inl, inr, Bool, true, false, not, ◌&&◌, ◌||◌, Option, none, some, List,
  [], ◌∷◌, ◌++◌, map, append-nil, append_assoc, arith, ltb, leb, ◌==◌, if◌then◌else◌, Bool-cases,
  Option-cases, u8, u16, u32, ◌<<<◌, ◌>>>◌, length, get_elem?, get_or, set, take, drop, replicate,
  ℤ, pos, negsuc, sub_ℕ, le32, store_le32,
}
use minios_grub_bootloader.Disk.{Disk, Driver}
use minios_grub_bootloader.Fat32.Types.{Context, fat32_eoc, fat32_mask}

unfoldable pub cluster_to_lba : Context → ℕ → ℕ
cluster_to_lba ctx cluster =
    u32 (ctx.data_start + u32 (u32 (cluster + 2 ^ 32 - 2) * ctx.sectors_per_cluster))

-- `fat_sector` and `entry_offset` of the functions below.
abbrev pub fat_sector : Context → ℕ → ℕ
fat_sector ctx cluster = u32 (ctx.fat_start + u32 (cluster * 4) / ctx.bytes_per_sector)

abbrev pub entry_offset : Context → ℕ → ℕ
entry_offset ctx cluster = u32 (cluster * 4) % ctx.bytes_per_sector

-- `for (i = 0; i < bytes_per_sector; i += 4)`, with the rounds left; `none` goes on to the next
-- sector, and `some` returns.
pub scan_sector : Context → ℕ → ℕ → ℕ → List ℕ → Option ℕ
scan_sector ctx zero i sector_num sector = none
scan_sector ctx (suc left) i sector_num sector =
    let rest = scan_sector ctx left (i + 4) sector_num sector in
    let cluster = u32 (u32 (sector_num * ctx.bytes_per_sector) + i) / 4 in
    if bit_and (le32 sector i) fat32_mask == 0
      && (leb 2 cluster && ltb cluster (u32 (ctx.total_clusters + 2)))
    then some cluster
    else rest

module _ (drv : Driver) (ctx : Context) where
  pub fat32_read_cluster : ℕ → Disk → Option (List ℕ)
  fat32_read_cluster cluster d =
      drv.read_sectors (cluster_to_lba ctx cluster) ctx.sectors_per_cluster d

  -- 0 stands for a failed read and for the end of the chain.
  unfoldable pub fat32_next_cluster : ℕ → Disk → ℕ
  fat32_next_cluster cluster d = elim (drv.read_sectors (fat_sector ctx cluster) 1 d) [
    | none ↦ 0
    | some sector ↦
        let next = bit_and (le32 sector (entry_offset ctx cluster)) fat32_mask in
        if leb fat32_eoc next then 0 else next
  ]

  -- `for (int i = 1; i < ctx->fat_count; i++)`, with the rounds left.
  pub write_copies : ℕ → ℕ → ℕ → List ℕ → Disk → Bool × Disk
  write_copies zero i first sector d = (true, d)
  write_copies (suc left) i first sector d =
      let (done, d') = drv.write_sectors (u32 (first + u32 (i * ctx.fat_size))) 1 sector d in
      let rest = write_copies left (i + 1) first sector d' in if done then rest else (false, d')

  pub set_fat_entry : ℕ → ℕ → Disk → Bool × Disk
  unfolding write_copies
  set_fat_entry cluster value d = elim (drv.read_sectors (fat_sector ctx cluster) 1 d) [
    | none ↦ (false, d)
    | some sector ↦
        let sector' = store_le32 sector (entry_offset ctx cluster) (bit_and value fat32_mask) in
        let (done, d') = drv.write_sectors (fat_sector ctx cluster) 1 sector' d in
        if done
        then write_copies (ctx.fat_count - 1) 1 (fat_sector ctx cluster) sector' d'
        else (false, d')
  ]

  pub scan_table : ℕ → ℕ → Disk → ℕ
  unfolding scan_sector
  scan_table zero sector_num d = 0
  scan_table (suc left) sector_num d =
      let rest = scan_table left (sector_num + 1) d in
      elim (drv.read_sectors (u32 (ctx.fat_start + sector_num)) 1 d) [
        | none ↦ 0
        | some sector ↦
            elim (scan_sector ctx ((ctx.bytes_per_sector + 3) / 4) 0 sector_num sector) [
              | none ↦ rest
              | some cluster ↦ cluster
            ]
      ]

  -- 0 stands for a failed read and for a full volume.
  pub find_free_cluster : Disk → ℕ
  unfolding scan_table
  find_free_cluster d = scan_table ctx.fat_size 0 d
