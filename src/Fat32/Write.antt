-- ===== src/Fat32/Write.antt =====
-- Writing files in fat32.c: `fat32_write` and `fat32_rewrite`. The buffer of a cluster is a local
-- list: `kmalloc` answers NULL for a size of 0 only, and the panic of a full heap is left out.
pub mod Ends
use minios_grub_bootloader.Base.{
  ℕ, zero, suc, ◌+◌, ◌-◌, ◌%◌, Bool, true, false, ◌&&◌, ◌||◌, Option, none, some, List, [], ◌∷◌,
  ◌++◌, ltb, leb, ◌==◌, if◌then◌else◌, u32, length, take, drop,
}
use minios_grub_bootloader.Disk.{Disk, Driver}
use minios_grub_bootloader.Fat32.Types.{Context, File, fat32_eoc}
use minios_grub_bootloader.Fat32.Table.{
  cluster_to_lba, fat32_next_cluster, set_fat_entry, find_free_cluster,
}
use minios_grub_bootloader.Fat32.Io.{Outcome, done, unfinished, Io}

-- `to_write`
abbrev pub write_chunk : Context → File → ℕ → ℕ
write_chunk ctx file left =
    let room = ctx.cluster_size - file.file_offset % ctx.cluster_size in
    if ltb left room then left else room

-- The cluster with the bytes of `src` from offset `i` on.
abbrev pub patch : List ℕ → ℕ → List ℕ → List ℕ
patch cluster_data i src = take i cluster_data ++ (src ++ drop (i + length src) cluster_data)

-- The fields after `n` more bytes.
abbrev pub grown : File → ℕ → File
grown file n =
    let offset = u32 (file.file_offset + n) in
    record file {
      cluster_offset = u32 (file.cluster_offset + n);
      file_offset = offset;
      size = if ltb file.size offset then offset else file.size;
    }

module _ (drv : Driver) (ctx : Context) where
  -- The new cluster at the end of a file; `none` is a full volume. The results of `set_fat_entry` are
  -- not looked at.
  unfoldable pub extend : File → Disk → Option File × Disk
  extend file d =
      let new = find_free_cluster drv ctx d in
      let linked = (set_fat_entry drv ctx file.current_cluster new d).1 in
      if new == 0
      then (none, d)
      else if file.current_cluster == 0
      then (
        some (record file { start_cluster = new; current_cluster = new }),
        (set_fat_entry drv ctx new fat32_eoc d).1,
      )
      else (
        some (record file { current_cluster = new }),
        (set_fat_entry drv ctx new fat32_eoc linked).1,
      )

  -- The cluster for the next bytes: a new one at the end of the file, if its last one is full.
  unfoldable pub next_place : File → Disk → Option File × Disk
  next_place file d =
      if (file.file_offset % ctx.cluster_size == 0) && leb file.size file.file_offset
      then extend file d
      else (some file, d)

  -- The rest of a turn: `none` is a `break`.
  unfoldable pub store_chunk : File → List ℕ → Disk → Option File × Disk
  store_chunk file src d =
      let lba = cluster_to_lba ctx file.current_cluster in
      elim (drv.read_sectors lba ctx.sectors_per_cluster d) [
        | none ↦ (none, d)
        | some cluster_data ↦
            let (written, d') =
              drv.write_sectors lba ctx.sectors_per_cluster
                (patch cluster_data (file.file_offset % ctx.cluster_size) src) d in
            if written then (some (grown file (length src)), d') else (none, d')
      ]

  -- The loop of `fat32_write`, with the bytes that are left, and the result of the function.
  pub write_loop : ℕ → List ℕ → File → Disk → Outcome (Bool × File)
  write_loop zero src file d = unfinished
  write_loop (suc fuel) [] file d = done (true, file) d
  write_loop (suc fuel) (c ∷ cs) file d =
      let (place, d1) = next_place file d in
      elim place [
        | none ↦ done (false, file) d1
        | some placed ↦
            let n = write_chunk ctx placed (length (c ∷ cs)) in
            let (stored, d2) = store_chunk placed (take n (c ∷ cs)) d1 in
            elim stored [
              | none ↦ done (false, placed) d2
              | some file' ↦ write_loop fuel (drop n (c ∷ cs)) file' d2
            ]
      ]

  pub fat32_write : File → List ℕ → Io (Bool × File)
  fat32_write file src d =
      if file.is_dir then done (false, file) d else write_loop (length src + 1) src file d

  -- The loop of `fat32_rewrite` that frees the chain; `none` is the lack of turns.
  unfoldable pub free_chain : ℕ → ℕ → Disk → Option Disk
  free_chain zero cluster d = none
  free_chain (suc fuel) cluster d =
      let next = fat32_next_cluster drv ctx cluster d in
      let rest = free_chain fuel next (set_fat_entry drv ctx cluster 0 d).1 in
      if cluster == 0 || leb fat32_eoc cluster then some d else rest

  -- A turn is meant to make the entry of its cluster 0, so that a chain of the volume would end within
  -- these turns; that the driver stores the 0 is not assumed.
  pub fat32_rewrite : File → List ℕ → Io (Bool × File)
  fat32_rewrite file src d =
      if file.is_dir
      then done (false, file) d
      else elim (free_chain (ctx.total_clusters + 4) file.start_cluster d) [
        | none ↦ unfinished
        | some d' ↦
            fat32_write
              (record file {
                start_cluster = 0;
                current_cluster = 0;
                cluster_offset = 0;
                file_offset = 0;
                size = 0;
              })
              src d'
      ]
