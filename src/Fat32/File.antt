-- ===== src/Fat32/File.antt =====
-- Reading and positioning a file in fat32.c: `fat32_read`, `fat32_seek`, `fat32_open_root` and
-- `fat32_close`. A `while` loop runs on fuel, and `none` is the lack of it.
-- Pointers to files and buffers are not NULL.
pub mod Contents
pub mod Read
pub mod Seek
pub mod Line
use minios_grub_bootloader.Base.{
  ℕ, zero, suc, ◌+◌, ◌-◌, ◌*◌, ◌/◌, ◌%◌, ◌^◌, ◌≤◌, ◌<◌, min, bit_and, bit_or, ◌≡◌, refl, sym, ap,
  ap₂, ◌∙◌, ◌≢◌, ◌↔◌, ◌⊎◌, inl, inr, Bool, true, false, not, ◌&&◌, ◌||◌, Option, none, some, List,
  [], ◌∷◌, ◌++◌, map, append-nil, append_assoc, arith, ltb, leb, ◌==◌, if◌then◌else◌, Bool-cases,
  Option-cases, u8, u16, u32, ◌<<<◌, ◌>>>◌, length, get_elem?, get_or, set, take, drop, replicate,
}
use minios_grub_bootloader.Disk.{Disk, Driver}
use minios_grub_bootloader.Fat32.Types.{Context, File, zeroed_file}
use minios_grub_bootloader.Fat32.Table.{fat32_next_cluster, fat32_read_cluster}

-- What `fat32_read` leaves: the count that it returns, the bytes that it has put into the buffer,
-- and the file.
pub record Got : Type 0 where
  pub count : ℕ
  pub out : List ℕ
  pub file : File

pub fat32_open_root : Context → File
fat32_open_root ctx = record zeroed_file {
  start_cluster = ctx.root_cluster;
  current_cluster = ctx.root_cluster;
  is_dir = true;
}

pub fat32_close : File → File
fat32_close file = zeroed_file

-- `to_read`. The offset lies in the file, so `size - file_offset` does not wrap.
abbrev pub chunk : Context → File → ℕ → ℕ
chunk ctx file remaining =
    let bytes_in_cluster = ctx.cluster_size - file.file_offset % ctx.cluster_size in
    let fitting = if ltb remaining bytes_in_cluster then remaining else bytes_in_cluster in
    if ltb (file.size - file.file_offset) fitting then file.size - file.file_offset else fitting

-- `file->file_offset += to_read; file->cluster_offset += to_read;`
abbrev pub advance : File → ℕ → File
advance file n = record file {
  cluster_offset = u32 (file.cluster_offset + n);
  file_offset = u32 (file.file_offset + n);
}

module _ (drv : Driver) (ctx : Context) (d : Disk) where
  -- `bytes_read` and `remaining` add up to the size that was asked for, so neither wraps.
  pub read_loop : ℕ → ℕ → ℕ → List ℕ → File → Option Got
  read_loop zero remaining bytes_read out file = none
  read_loop (suc fuel) remaining bytes_read out file =
      elim (remaining == 0 || leb file.size file.file_offset) [
        | true ↦ some (record { count = bytes_read; out = out; file = file })
        | false ↦ elim (fat32_read_cluster drv ctx file.current_cluster d) [
          | none ↦ some (record { count = 0; out = out; file = file })
          | some cluster_data ↦
              let n = chunk ctx file remaining in
              let out' = out ++ take n (drop (file.file_offset % ctx.cluster_size) cluster_data) in
              let file' = advance file n in
              let next = fat32_next_cluster drv ctx file.current_cluster d in
              elim (leb ctx.cluster_size file'.cluster_offset) [
                | false ↦ read_loop fuel (remaining - n) (bytes_read + n) out' file'
                | true ↦ elim (next == 0) [
                  | true ↦ some (record {
                    count = bytes_read + n;
                    out = out';
                    file = record file' { current_cluster = 0 };
                  })
                  | false ↦
                      read_loop fuel (remaining - n) (bytes_read + n) out'
                        (record file' { current_cluster = next; cluster_offset = 0 })
                ]
              ]
        ]
      ]

  pub fat32_read : File → ℕ → Option Got
  unfolding read_loop
  fat32_read file size =
      if file.is_dir
      then some (record { count = 0; out = []; file = file })
      else read_loop (size + 1) size 0 [] file

  -- The loop of `fat32_seek`: the cluster and the position where it stops, or `inl` at the end of
  -- the chain.
  pub seek_loop : ℕ → ℕ → ℕ → ℕ → Option (Option (ℕ × ℕ))
  seek_loop zero offset target_cluster position = none
  seek_loop (suc fuel) offset target_cluster position =
      elim (leb (u32 (position + ctx.cluster_size)) offset) [
        | false ↦ some (some (target_cluster, position))
        | true ↦
            let next = fat32_next_cluster drv ctx target_cluster d in
            elim (next == 0) [
              | true ↦ some none
              | false ↦ seek_loop fuel offset next (u32 (position + ctx.cluster_size))
            ]
      ]

  pub fat32_seek : File → ℕ → Option (Bool × File)
  unfolding seek_loop
  fat32_seek file offset =
      if ltb file.size offset
      then some (false, file)
      else elim (seek_loop (offset + 1) offset file.start_cluster 0) [
        | none ↦ none
        | some none ↦ some (false, record file { file_offset = offset })
        | some (some (target_cluster, position)) ↦ some (
          true,
          record file {
            file_offset = offset;
            current_cluster = target_cluster;
            cluster_offset = offset - position;
          },
        )
      ]
