-- ===== src/Fat32/Init/Mounts.antt =====
-- When `fat32_init` gives a mounted volume.
use minios_grub_bootloader.Base.{
  List, ◌-◌, u32, not, ◌&&◌, ◌==◌, false, refl, if◌then◌else◌, ℕ, ◌+◌, ◌*◌, ◌/◌, ◌^◌, ◌≤◌, ◌<◌, ◌≡◌,
  ◌⊎◌, arith, byte_at, le16, le32,
}
use minios_grub_bootloader.Disk.{Disk, Driver, Reads, sectors}
use minios_grub_bootloader.Fat32.Types.{Context, IsMounted}
use minios_grub_bootloader.Fat32.Init.{mounted, fat_sectors, boot_context, fat32_init}

-- A boot sector whose sizes are consistent, for a volume at `lba_start`.
pub record IsBootSector (lba_start : ℕ) (bs : List ℕ) : Type 0 where
  pub signature : (byte_at bs 66 ≡ 0x28) ⊎ (byte_at bs 66 ≡ 0x29)
  pub sector_bytes : le16 bs 11 ≡ 512
  pub cluster_pos : 0 < byte_at bs 13
  pub cluster_lt : byte_at bs 13 < 256
  pub copies : 0 < byte_at bs 16
  pub table_lt : fat_sectors bs < 2 ^ 23
  pub total_lt : lba_start + le32 bs 32 ≤ 2 ^ 28
  pub data_inside : le16 bs 14 + byte_at bs 16 * fat_sectors bs ≤ le32 bs 32
  pub covered :
      (le32 bs 32 - le16 bs 14 - byte_at bs 16 * fat_sectors bs) / byte_at bs 13 + 2
      ≤ fat_sectors bs * 128

-- The context that the boot sector describes, in numbers that do not wrap.
pub record IsDescribed (lba_start : ℕ) (bs : List ℕ) (ctx : Context) : Type 0 where
  pub volume : ctx.lba_start ≡ lba_start
  pub sector_bytes : ctx.bytes_per_sector ≡ 512
  pub per_cluster : ctx.sectors_per_cluster ≡ byte_at bs 13
  pub cluster_bytes : ctx.cluster_size ≡ 512 * byte_at bs 13
  pub tables : ctx.fat_start ≡ lba_start + le16 bs 14
  pub table_sectors : ctx.fat_size ≡ (if le16 bs 22 == 0 then le32 bs 36 else le16 bs 22)
  pub copies : ctx.fat_count ≡ byte_at bs 16
  pub data_area : ctx.data_start ≡ ctx.fat_start + ctx.fat_count * ctx.fat_size
  pub root : ctx.root_cluster ≡ le32 bs 44
  pub clusters :
      ctx.total_clusters ≡ (le32 bs 32 - le16 bs 14 - ctx.fat_count * ctx.fat_size) / byte_at bs 13

div-mul : (n k : ℕ) → 0 < k → n / k * k ≤ n
div-mul n k h = grind arith

boot_context-IsMounted :
    (lba_start : ℕ) (bs : List ℕ)
    → IsBootSector lba_start bs
    → IsMounted (boot_context lba_start bs)
unfolding boot_context
boot_context-IsMounted lba_start bs b = record {
  sector_bytes = b.sector_bytes;
  cluster_pos = b.cluster_pos;
  cluster_lt = b.cluster_lt;
  cluster_bytes = ground (arith, b.sector_bytes, b.cluster_lt);
  copies = b.copies;
  tables = rw (start, tables) (ground (arith, end));
  data_fits =
      rw (start, tables, size, end)
        (ground (arith, div-mul data_sectors (byte_at bs 13) b.cluster_pos));
  table_lt = b.table_lt;
  covered = rw (tables, size) b.covered;
}
  where
    t : ℕ
    t = byte_at bs 16 * fat_sectors bs

    data_sectors : ℕ
    data_sectors = le32 bs 32 - le16 bs 14 - t

    tables : u32 t ≡ t
    tables = omega (arith, b.data_inside, b.total_lt)

    start : u32 (lba_start + le16 bs 14) ≡ lba_start + le16 bs 14
    start = omega (arith, b.data_inside, b.total_lt)

    end : u32 (lba_start + le16 bs 14 + t) ≡ lba_start + le16 bs 14 + t
    end = omega (arith, b.data_inside, b.total_lt)

    size : u32 (le32 bs 32 + 2 ^ 33 - le16 bs 14 - t) ≡ data_sectors
    size = omega (arith, b.data_inside, b.total_lt)

boot_context-IsDescribed :
    (lba_start : ℕ) (bs : List ℕ)
    → IsBootSector lba_start bs
    → IsDescribed lba_start bs (boot_context lba_start bs)
unfolding boot_context
boot_context-IsDescribed lba_start bs b =
    let t = byte_at bs 16 * fat_sectors bs in
    let tables : u32 t ≡ t = omega (arith, b.data_inside, b.total_lt) in
    let start : u32 (lba_start + le16 bs 14) ≡ lba_start + le16 bs 14 =
      omega (arith, b.data_inside, b.total_lt) in
    let end : u32 (lba_start + le16 bs 14 + t) ≡ lba_start + le16 bs 14 + t =
      omega (arith, b.data_inside, b.total_lt) in
    let size : u32 (le32 bs 32 + 2 ^ 33 - le16 bs 14 - t) ≡ le32 bs 32 - le16 bs 14 - t =
      omega (arith, b.data_inside, b.total_lt) in
    record {
      volume = refl;
      sector_bytes = b.sector_bytes;
      per_cluster = refl;
      cluster_bytes = ground (arith, b.sector_bytes, b.cluster_lt);
      tables = start;
      table_sectors = refl;
      copies = refl;
      data_area = rw (start, tables) end;
      root = refl;
      clusters = rw (tables, size) refl;
    }

-- With a driver that reads, a volume whose boot sector has a known signature, sectors of 512
-- bytes, a size of clusters and a number of tables that are not 0, and sizes that fit each other
-- and the 28-bit addresses, is mounted. Its context has the addresses, the sizes and the root
-- cluster that the boot sector describes, without a wrap, and is consistent in the sense on which the
-- other operations rest.
pub fat32_init-IsMounted :
    {drv : Driver} (lba_start : ℕ) (d : Disk)
    → Reads drv
    → IsBootSector lba_start (sectors d lba_start 1)
    → lba_start < 2 ^ 28
    → (ctx : Context) × (fat32_init drv lba_start d ≡ mounted ctx)
      × IsDescribed lba_start (sectors d lba_start 1) ctx
      × IsMounted ctx
unfolding fat32_init
fat32_init-IsMounted {drv} lba_start d reads b low = (
  boot_context lba_start bs,
  rw (fat32_init, reads.reads lba_start 1 d (omega arith) (omega arith) (omega arith), known, used)
      refl,
  boot_context-IsDescribed lba_start bs b,
  boot_context-IsMounted lba_start bs b,
)
  where
    bs : List ℕ
    bs = sectors d lba_start 1

    known : (not (byte_at bs 66 == 0x28) && not (byte_at bs 66 == 0x29)) ≡ false
    known = ground (arith, b.signature)

    used : (byte_at bs 13 == 0) ≡ false
    used = ground (arith, b.cluster_pos)
