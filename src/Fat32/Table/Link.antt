-- ===== src/Fat32/Table/Link.antt =====
-- What `set_fat_entry` writes, with whatever the driver makes of a sector.
mod Copies
use minios_grub_bootloader.Base.{
  eq_of_test, ne_of_test, test_of_eq, test_of_ne, Bool-cases, sym, inl, inr, zero, suc, ℕ, ◌+◌, ◌-◌,
  ◌*◌, ◌/◌, ◌%◌, ◌^◌, ◌≤◌, ◌<◌, min, bit_and, bit_or, ◌≡◌, refl, ap, ap₂, ◌∙◌, ◌≢◌, ◌↔◌, ◌⊎◌, Bool,
  true, false, not, ◌&&◌, ◌||◌, Option, none, some, List, [], ◌∷◌, ◌++◌, map, append-nil,
  append_assoc, arith, ltb, leb, ◌==◌, if◌then◌else◌, Option-cases, u8, u16, u32, ◌<<<◌, ◌>>>◌,
  length, get_elem?, get_or, set, take, drop, replicate, ℤ, pos, negsuc, sub_ℕ, le32, store_le32,
  bit_and_mask, length-store_le32, le32-store_le32_self, le32-store_le32_apart,
}
use minios_grub_bootloader.Disk.{Disk, Driver, Reads, Stores, IsFormatted, put_sectors}
use minios_grub_bootloader.Disk.Memory.{
  put_sectors-one_self, put_sectors_outside, put_sectors-IsFormatted,
}
use minios_grub_bootloader.Fat32.Types.{Context, IsMounted, InRange, fat32_eoc, fat32_mask}
use minios_grub_bootloader.Fat32.Table.{fat_sector, entry_offset, set_fat_entry, fat32_next_cluster}
use minios_grub_bootloader.Fat32.Table.Entry.{
  table_sector, table_offset, entry, fat_sector_lem, read_fat_sector, fat32_next_cluster_lem,
}
use Copies.{copied, copied_at, copied_outside, write_copies-copied}

-- What setting the entry of `cluster` to `value` does to the disk: the copies of the sector of the entry
-- hold the image of the new sector, and every other sector is as before.
pub record IsMirrored (image : List ℕ → List ℕ) (ctx : Context) (cluster value : ℕ) (d d' : Disk)
    : Type 0 where
  pub copies :
      (i : ℕ)
      → i < ctx.fat_count
      → d' (ctx.fat_start + cluster / 128 + i * ctx.fat_size)
        ≡ image
            (store_le32 (d (ctx.fat_start + cluster / 128)) (cluster % 128 * 4) (value % 2 ^ 28))
  pub others :
      (k : ℕ)
      → ((i : ℕ) → i < ctx.fat_count → ctx.fat_start + cluster / 128 + i * ctx.fat_size ≢ k)
      → d' k ≡ d k

module _ {drv : Driver} {image : List ℕ → List ℕ} (reads : Reads drv) (w : Stores drv image)
    {ctx : Context} (m : IsMounted ctx) (cluster value : ℕ) (d : Disk) (r : InRange ctx cluster)
    (f : IsFormatted d) where
  abbrev new_sector : List ℕ
  new_sector = store_le32 (d (table_sector ctx cluster)) (table_offset cluster) (value % 2 ^ 28)

  abbrev stored : Disk
  stored = put_sectors (table_sector ctx cluster) 1 (image new_sector) d

  abbrev linked : Disk
  linked = copied ctx (ctx.fat_count - 1) 1 (table_sector ctx cluster) (image new_sector) stored

  length-new_sector : length new_sector ≡ 512
  length-new_sector = rw length-store_le32 (f (table_sector ctx cluster))

  copy_bound :
      (j : ℕ) → j < ctx.fat_count → j * ctx.fat_size + ctx.fat_size ≤ ctx.fat_count * ctx.fat_size
  copy_bound j h = grind arith

  copy_above : (j : ℕ) → 1 ≤ j → ctx.fat_size ≤ j * ctx.fat_size
  copy_above j h = grind arith

  set_fat_entry-linked : set_fat_entry drv ctx cluster value d ≡ (true, linked)
  unfolding set_fat_entry
  set_fat_entry-linked =
      let at = fat_sector_lem m cluster r in
      let done = w.stores (table_sector ctx cluster) new_sector d (omega arith) length-new_sector in
      rw
        (
          read_fat_sector reads m cluster d r,
          set_fat_entry,
          at.0,
          at.1,
          bit_and_mask 28 value,
          done,
        )
        (write_copies-copied ctx drv image (ctx.fat_count - 1) 1 (table_sector ctx cluster)
          new_sector stored w length-new_sector
          (λ j p q. let b = copy_bound j (omega arith) in omega (arith, at)))

  linked_copies :
      (i : ℕ)
      → i < ctx.fat_count
      → linked (table_sector ctx cluster + i * ctx.fat_size) ≡ image new_sector
  linked_copies zero h =
      let sector = table_sector ctx cluster in
      let same : sector + 0 * ctx.fat_size ≡ sector = omega arith in
      rw same (
        copied_outside ctx (ctx.fat_count - 1) 1 sector (image new_sector) stored sector
          (λ j p q e. let b = copy_above j p in omega (arith, fat_sector_lem m cluster r))
        ∙ put_sectors-one_self sector (image new_sector) d
            (w.length-image new_sector length-new_sector))
  linked_copies (suc i) h =
      copied_at ctx (ctx.fat_count - 1) 1 (table_sector ctx cluster) (image new_sector) stored
        (suc i) (omega (arith, fat_sector_lem m cluster r))
        (w.length-image new_sector length-new_sector) (omega arith) (omega arith)

  linked_others :
      (k : ℕ)
      → ((i : ℕ) → i < ctx.fat_count → table_sector ctx cluster + i * ctx.fat_size ≢ k)
      → linked k ≡ d k
  linked_others k apart =
      copied_outside ctx (ctx.fat_count - 1) 1 (table_sector ctx cluster) (image new_sector) stored
        k (λ j p q. apart j (omega arith))
      ∙ put_sectors_outside (table_sector ctx cluster) 1 (image new_sector) d k
          (let ne = apart 0 m.copies in omega arith)

  -- With a driver that reads, and that stores some image of the sector that it is given, on a mounted,
  -- formatted volume: `set_fat_entry` on one of its clusters succeeds. Every copy of the table then has, in
  -- the place of the sector of the entry, the image of that sector with the low 28 bits of the value as
  -- the entry, and no other sector of the disk has changed.
  pub set_fat_entry-IsMirrored :
      (d' : Disk) × (set_fat_entry drv ctx cluster value d ≡ (true, d'))
      × IsMirrored image ctx cluster value d d'
  set_fat_entry-IsMirrored =
      (linked, set_fat_entry-linked, record { copies = linked_copies; others = linked_others })
