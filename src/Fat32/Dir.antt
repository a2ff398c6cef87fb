-- ===== src/Fat32/Dir.antt =====
-- Directories in fat32.c: `fat32_read_dir`, `fat32_find_file`, `create_direntry` and
-- `fat32_update_timestamps`. `frame` is what the uninitialised array of `fat32_read_dir` holds when it
-- is called on a directory, `clock` the registers of the clock, and `turns` bounds the turns of a
-- loop over a chain, which does not end on a chain that is a circle. Buffers are local lists:
-- `kmalloc` answers NULL for a size of 0 only, and the panic of a full heap is left out.
pub mod Lookup
use minios_grub_bootloader.Base.{
  ℕ, zero, suc, ◌+◌, ◌*◌, ◌/◌, Bool, true, false, not, ◌&&◌, ◌||◌, Option, none, some, List, ◌∷◌,
  ◌++◌, leb, ◌==◌, if◌then◌else◌, u32, take, drop, byte_at,
}
use minios_grub_bootloader.Disk.{Disk, Driver}
use minios_grub_bootloader.Libc.Strings.{CString}
use minios_grub_bootloader.Fat32.Types.{Context, File, zeroed_file, attr_volume_id, attr_long_name}
use minios_grub_bootloader.Fat32.Table.{cluster_to_lba, fat32_next_cluster, fat32_read_cluster}
use minios_grub_bootloader.Fat32.Io.{
  Outcome, done, panics, unfinished, Io, return, ◌>>=◌, lift, or_panic,
}
use minios_grub_bootloader.Fat32.Names.{
  DirEntry, entry_size, char_is, attributes, has_name, new_entry, same_name_bytes, bytes16,
}
use minios_grub_bootloader.Cmos.{get_rtc_time, get_rtc_date}
use minios_grub_bootloader.Fat32.Stamp.{time_to_fat, date_to_fat}

-- The entry at offset `i` of a cluster.
abbrev pub entry_at : List ℕ → ℕ → DirEntry
entry_at cluster_data i = take entry_size (drop i cluster_data)

abbrev pub put_entry : List ℕ → ℕ → DirEntry → List ℕ
put_entry cluster_data i e = take i cluster_data ++ (e ++ drop (i + entry_size) cluster_data)

-- The two stamps of now.
unfoldable pub fat_now : (ℕ → ℕ) → Io (ℕ × ℕ)
fat_now clock = do
  (seconds, (minutes, hours)) ← or_panic (get_rtc_time clock)
  (day, (month, year)) ← or_panic (get_rtc_date clock)
  return (time_to_fat hours minutes seconds, date_to_fat day month year)

module _ (drv : Driver) (ctx : Context) (frame : File → List ℕ) where
  -- The loop of `fat32_read_dir`, with the array `cluster_data`: the entry, if any, and the directory.
  pub read_dir_loop : ℕ → List ℕ → File → Disk → Outcome (Option DirEntry × File)
  read_dir_loop zero cluster_data dir d = unfinished
  read_dir_loop (suc turns) cluster_data dir d =
      elim (if dir.cluster_offset == 0
        then fat32_read_cluster drv ctx dir.current_cluster d
        else some cluster_data) [
          | none ↦ done (none, dir) d
          | some now ↦
              let de = entry_at now dir.cluster_offset in
              let dir' = record dir {
                cluster_offset = u32 (dir.cluster_offset + entry_size);
                file_offset = u32 (dir.file_offset + entry_size);
              } in
              let next = fat32_next_cluster drv ctx dir.current_cluster d in
              let full = leb ctx.cluster_size dir'.cluster_offset in
              let dir'' =
                if full then record dir' { current_cluster = next; cluster_offset = 0 } else dir' in
              let rest = read_dir_loop turns now dir'' d in
              if char_is (byte_at de 0) 0
              then done (none, dir) d
              else if full && (next == 0)
              then done (none, record dir' { current_cluster = 0 }) d
              else if char_is (byte_at de 0) 0xE5 || attributes de == attr_long_name
              then rest
              else done (some de, dir'') d
        ]

  pub fat32_read_dir : ℕ → File → Io (Option DirEntry × File)
  fat32_read_dir turns dir d =
      if dir.is_dir then read_dir_loop turns (frame dir) dir d else done (none, dir) d

  -- The loop of `fat32_find_file`.
  pub find_loop : ℕ → CString → File → Disk → Outcome (Option DirEntry)
  find_loop zero name dir d = unfinished
  find_loop (suc turns) name dir d = elim (fat32_read_dir (suc turns) dir d) [
    | panics ↦ panics
    | unfinished ↦ unfinished
    | done (none, dir') d' ↦ done none d'
    | done (some de, dir') d' ↦
        let skipped =
          char_is (byte_at de 0) 0xE5
          || (attributes de == attr_volume_id || attributes de == attr_long_name) in
        elim (not skipped && has_name de name) [
          | true ↦ done (some de) d'
          | false ↦ find_loop turns name dir' d'
        ]
  ]

  pub fat32_find_file : ℕ → ℕ → CString → Io (Option DirEntry)
  fat32_find_file turns start_cluster name = find_loop turns name (record zeroed_file {
    start_cluster = start_cluster;
    current_cluster = start_cluster;
    is_dir = true;
  })

-- The loop of `create_direntry` from offset `i` on: the first entry that has never been used or that
-- it takes for deleted.
unfoldable pub free_entry : ℕ → ℕ → List ℕ → Option ℕ
free_entry zero i cluster_data = none
free_entry (suc left) i cluster_data =
    let rest = free_entry left (i + entry_size) cluster_data in
    let c = byte_at cluster_data i in if char_is c 0 || char_is c 0xE5 then some i else rest

-- The loop of `fat32_remove` and of `fat32_update_timestamps` from entry `i` on.
unfoldable pub entry_with_bytes : ℕ → ℕ → DirEntry → List ℕ → Option ℕ
entry_with_bytes zero i e cluster_data = none
entry_with_bytes (suc left) i e cluster_data =
    let rest = entry_with_bytes left (i + 1) e cluster_data in
    if same_name_bytes (entry_at cluster_data (i * entry_size)) e then some i else rest

-- The entry with the stamps that `fat32_update_timestamps` sets.
pub stamp_entry : Bool → Bool → Bool → ℕ → ℕ → DirEntry → DirEntry
stamp_entry creation access modification fat_time fat_date e =
    let e1 =
      if creation
      then take 13 e ++ (0 ∷ (bytes16 fat_time ++ (bytes16 fat_date ++ drop 18 e)))
      else e in
    let e2 = if access then take 18 e1 ++ (bytes16 fat_date ++ drop 20 e1) else e1 in
    if modification
    then take 22 e2 ++ (bytes16 fat_time ++ (bytes16 fat_date ++ drop 26 e2))
    else e2

module _ (drv : Driver) (ctx : Context) (clock : ℕ → ℕ) where
  unfoldable pub write_cluster : ℕ → List ℕ → Io Bool
  write_cluster lba cluster_data = lift (drv.write_sectors lba ctx.sectors_per_cluster cluster_data)

  -- A read of a cluster by its address, with the early return where it fails.
  abbrev pub with_cluster : ℕ → (List ℕ → Io Bool) → Io Bool
  with_cluster cluster rest d =
      if ctx.cluster_size == 0
      then done false d
      else elim (drv.read_sectors (cluster_to_lba ctx cluster) ctx.sectors_per_cluster d) [
        | none ↦ done false d
        | some cluster_data ↦ rest cluster_data d
      ]

  unfoldable pub create_direntry : ℕ → CString → ℕ → ℕ → ℕ → Io Bool
  create_direntry dir_cluster name attrs cluster size = with_cluster dir_cluster λ cluster_data.
      elim (free_entry ((ctx.cluster_size + 31) / entry_size) 0 cluster_data) [
        | none ↦ return false
        | some i ↦ do
          (fat_time, fat_date) ← fat_now clock
          write_cluster (cluster_to_lba ctx dir_cluster)
              (put_entry cluster_data i (new_entry name attrs cluster size fat_time fat_date))
      ]

  pub fat32_update_timestamps : (File → List ℕ) → ℕ → ℕ → CString → Bool → Bool → Bool → Io Bool
  fat32_update_timestamps frame turns dir_cluster name creation access modification = do
    (fat_time, fat_date) ← fat_now clock
    found ← fat32_find_file drv ctx frame turns dir_cluster name
    elim found [
      | none ↦ return false
      | some e ↦ with_cluster dir_cluster λ cluster_data.
          elim (entry_with_bytes (ctx.cluster_size / entry_size) 0 e cluster_data) [
            | none ↦ return false
            | some i ↦ write_cluster (cluster_to_lba ctx dir_cluster) (
                put_entry cluster_data (i * entry_size) (
                  stamp_entry creation access modification fat_time fat_date
                    (entry_at cluster_data (i * entry_size))))
          ]
    ]
