-- ===== src/Fat32/Table/Data.antt =====
-- The data of a cluster next to the tables and to the data of the others.
use minios_grub_bootloader.Base.{
  ℕ, ◌+◌, ◌-◌, ◌*◌, ◌≤◌, ◌<◌, ◌≡◌, refl, sym, ap, ◌∙◌, ◌≢◌, inl, inr, List, arith, ltb, leb,
  if◌then◌else◌, Bool-cases, lt_of_ltb,
}
use minios_grub_bootloader.Disk.{Disk, Driver, Reads, sectors, put_sectors}
use minios_grub_bootloader.Disk.Memory.{sectors_ext, put_sectors_outside}
use minios_grub_bootloader.Fat32.Types.{Context, IsMounted, InRange, fat32_eoc}
use minios_grub_bootloader.Fat32.Table.{cluster_to_lba, fat32_next_cluster}
use minios_grub_bootloader.Fat32.Table.Entry.{
  table_sector, entry, tables_fit, fat_sector_lem, cluster_to_lba_lem, fat32_next_cluster_lem,
}

-- The disk with other bytes in a cluster.
abbrev pub put_cluster : Context → ℕ → List ℕ → Disk → Disk
put_cluster ctx cluster bytes d =
    put_sectors (cluster_to_lba ctx cluster) ctx.sectors_per_cluster bytes d

abbrev pub cluster_bytes : Context → Disk → ℕ → List ℕ
cluster_bytes ctx d cluster = sectors d (cluster_to_lba ctx cluster) ctx.sectors_per_cluster

module _ {ctx : Context} (m : IsMounted ctx) where
  -- Sectors that differ in nothing from the data area on give the same data.
  pub cluster_bytes-data :
      (d d' : Disk) (c : ℕ)
      → InRange ctx c
      → ((k : ℕ) → ctx.data_start ≤ k → d' k ≡ d k)
      → cluster_bytes ctx d' c ≡ cluster_bytes ctx d c
  cluster_bytes-data d d' c rc h =
      let place = cluster_to_lba_lem m c rc in
      sectors_ext d d' (cluster_to_lba ctx c) ctx.sectors_per_cluster (λ k p q. h k (omega arith))

  pub entry-put_cluster :
      (cluster : ℕ) (bytes : List ℕ) (d : Disk) (c : ℕ)
      → InRange ctx cluster
      → InRange ctx c
      → entry ctx (put_cluster ctx cluster bytes d) c ≡ entry ctx d c
  entry-put_cluster cluster bytes d c range rc =
      let at = fat_sector_lem m c rc in
      let place = cluster_to_lba_lem m cluster range in
      let fit : table_sector ctx c < cluster_to_lba ctx cluster =
        let tables = tables_fit m in omega arith in
      rw
        (put_sectors_outside (cluster_to_lba ctx cluster) ctx.sectors_per_cluster bytes d
          (table_sector ctx c) (inl fit))
        refl

  -- Two clusters have no sector in common.
  cluster_apart :
      (a b : ℕ)
      → 2 ≤ a
      → a < b
      → (a - 2) * ctx.sectors_per_cluster + ctx.sectors_per_cluster
        ≤ (b - 2) * ctx.sectors_per_cluster
  cluster_apart a b low less = grind arith

  pub cluster_bytes-put_ne :
      (cluster : ℕ) (bytes : List ℕ) (d : Disk) (c : ℕ)
      → InRange ctx cluster
      → InRange ctx c
      → c ≢ cluster
      → cluster_bytes ctx (put_cluster ctx cluster bytes d) c ≡ cluster_bytes ctx d c
  cluster_bytes-put_ne cluster bytes d c range rc other =
      let here = cluster_to_lba_lem m cluster range in
      let there = cluster_to_lba_lem m c rc in
      sectors_ext d (put_cluster ctx cluster bytes d) (cluster_to_lba ctx c) ctx.sectors_per_cluster
        λ k p q.
          put_sectors_outside (cluster_to_lba ctx cluster) ctx.sectors_per_cluster bytes d k
            (elim (Bool-cases (ltb c cluster)) [
              | inl below ↦
                  inl (omega (arith, cluster_apart c cluster rc.0 (lt_of_ltb c cluster below)))
              | inr above ↦
                  let past : cluster < c = ground arith in
                  inr (omega (arith, cluster_apart cluster c range.0 past))
            ])

  -- The chains of the volume do not depend on the bytes of a cluster.
  pub next_cluster-put_cluster :
      {drv : Driver} (r : Reads drv) (cluster : ℕ) (bytes : List ℕ) (d : Disk) (c : ℕ)
      → InRange ctx cluster
      → InRange ctx c
      → fat32_next_cluster drv ctx c (put_cluster ctx cluster bytes d)
        ≡ fat32_next_cluster drv ctx c d
  next_cluster-put_cluster r cluster bytes d c range rc =
      fat32_next_cluster_lem r m c (put_cluster ctx cluster bytes d) rc
      ∙ ap (λ e. if leb fat32_eoc e then 0 else e) (entry-put_cluster cluster bytes d c range rc)
      ∙ sym (fat32_next_cluster_lem r m c d rc)
