-- ===== src/Fat32/Change.antt =====
-- Changes of the directory tree in fat32.c: `fat32_mkdir`, `fat32_create`, `fat32_remove`,
-- `fat32_rmdir` and `fat32_update_file_entry`.
use minios_grub_bootloader.Base.{
  ℕ, zero, suc, ◌+◌, ◌-◌, ◌*◌, ◌/◌, ◌^◌, Bool, true, false, not, ◌&&◌, ◌||◌, Option, none, some,
  List, ◌∷◌, ◌++◌, ◌==◌, if◌then◌else◌, set, take, replicate, byte_at,
}
use minios_grub_bootloader.Disk.{Disk, Driver}
use minios_grub_bootloader.Libc.Strings.{CString}
use minios_grub_bootloader.Fat32.Types.{Context, File, attr_directory, attr_archive, fat32_eoc}
use minios_grub_bootloader.Fat32.Table.{cluster_to_lba, find_free_cluster, set_fat_entry}
use minios_grub_bootloader.Fat32.Io.{
  Outcome, done, panics, unfinished, Io, return, ◌>>=◌, ◌>>◌, gets, lift, unless_failed,
}
use minios_grub_bootloader.Fat32.Names.{
  DirEntry, entry_size, char_is, str_to_upper, bytes16, bytes32, has_name,
}
use minios_grub_bootloader.Fat32.Dir.{
  fat32_read_dir, fat32_find_file, create_direntry, fat32_update_timestamps, with_cluster,
  write_cluster, fat_now, put_entry, entry_at, entry_with_bytes,
}
use minios_grub_bootloader.Fat32.Path.{split_path, fat32_open_file}

-- The entry of a directory under a name of dots, which is padded with spaces.
pub dot_entry : List ℕ → ℕ → DirEntry
dot_entry name cluster =
    name
    ++ (attr_directory
        ∷ (replicate 8 0
            ++ (bytes16 (cluster / 2 ^ 16)
                ++ (replicate 4 0 ++ (bytes16 cluster ++ replicate 4 0)))))

-- The first cluster of a new directory.
pub new_directory : Context → ℕ → ℕ → List ℕ
new_directory ctx new_cluster parent_cluster =
    dot_entry (46 ∷ replicate 10 32) new_cluster
    ++ (dot_entry (46 ∷ 46 ∷ replicate 9 32)
          (if parent_cluster == ctx.root_cluster then ctx.root_cluster else parent_cluster)
        ++ replicate (ctx.cluster_size - 64) 0)

-- The search of `fat32_update_file_entry` from entry `i` on.
pub entry_named : ℕ → ℕ → CString → List ℕ → Option ℕ
entry_named zero i name cluster_data = none
entry_named (suc left) i name cluster_data =
    let rest = entry_named left (i + 1) name cluster_data in
    let e = entry_at cluster_data (i * entry_size) in
    if char_is (byte_at e 0) 0 || char_is (byte_at e 0) 0xE5
    then rest
    else if has_name e name
    then some i
    else rest

-- The entry with the cluster, the size and the stamps that `fat32_update_file_entry` sets.
pub resized_entry : ℕ → ℕ → ℕ → ℕ → DirEntry → DirEntry
resized_entry cluster size fat_time fat_date e =
    take 20 e
    ++ (bytes16 (cluster / 2 ^ 16)
        ++ (bytes16 fat_time ++ (bytes16 fat_date ++ (bytes16 cluster ++ bytes32 size))))

module _ (drv : Driver) (ctx : Context) (clock : ℕ → ℕ) (frame : File → List ℕ) (turns : ℕ) where
  -- The start that the operations share: the parent of a path, which is a directory, and the name.
  abbrev pub in_parent : CString → (File → CString → Io Bool) → Io Bool
  in_parent path rest = do
    let (parent, name) = split_path (str_to_upper path)
    opened ← fat32_open_file drv ctx frame turns parent
    elim opened [
      | none ↦ return false
      | some dir ↦ if dir.is_dir then rest dir name else return false
    ]

  pub fat32_create : CString → Io Bool
  fat32_create path =
      in_parent path
        λ dir name. create_direntry drv ctx clock dir.current_cluster name attr_archive 0 0

  pub fat32_mkdir : CString → Io Bool
  fat32_mkdir path = in_parent path λ dir name. do
    new_cluster ← gets (find_free_cluster drv ctx)
    if new_cluster == 0
        then return false
        else lift (set_fat_entry drv ctx new_cluster fat32_eoc) >>= λ marked.
            unless_failed (marked && not (ctx.cluster_size == 0)) (
              write_cluster drv ctx clock (cluster_to_lba ctx new_cluster)
                (new_directory ctx new_cluster dir.start_cluster)
              >>= λ written. unless_failed written (
                  create_direntry drv ctx clock dir.current_cluster name attr_directory new_cluster
                    0))

  -- The first byte of the entry becomes 0xE5.
  pub fat32_remove : CString → Io Bool
  fat32_remove path = do
    let (parent, name) = split_path (str_to_upper path)
    opened ← fat32_open_file drv ctx frame turns parent
    elim opened [
      | none ↦ return false
      | some dir ↦ fat32_find_file drv ctx frame turns dir.start_cluster name >>= λ found.
          elim found [
            | none ↦ return false
            | some e ↦ with_cluster drv ctx clock dir.current_cluster λ cluster_data.
                elim (entry_with_bytes (ctx.cluster_size / entry_size) 0 e cluster_data) [
                  | none ↦ return false
                  | some i ↦
                      write_cluster drv ctx clock (cluster_to_lba ctx dir.current_cluster)
                        (set cluster_data (i * entry_size) 0xE5)
                      >>= λ written. unless_failed written (
                          fat32_update_timestamps drv ctx clock frame turns dir.start_cluster name
                            false false true
                          >> return true)
                ]
          ]
    ]

  -- The loop of `fat32_rmdir`: whether the directory has no entry but those of dots.
  pub only_dots : ℕ → File → Disk → Outcome Bool
  only_dots zero dir d = unfinished
  only_dots (suc left) dir d = elim (fat32_read_dir drv ctx frame turns dir d) [
    | panics ↦ panics
    | unfinished ↦ unfinished
    | done (none, dir') d' ↦ done true d'
    | done (some e, dir') d' ↦
        let c = byte_at e 0 in
        elim (not (char_is c 46) && (not (char_is c 0) && not (char_is c 0xE5))) [
          | true ↦ done false d'
          | false ↦ only_dots left dir' d'
        ]
  ]

  pub fat32_rmdir : CString → Io Bool
  fat32_rmdir path = do
    opened ← fat32_open_file drv ctx frame turns (str_to_upper path)
    elim opened [
      | none ↦ return false
      | some dir ↦
          if dir.is_dir
          then (only_dots turns dir >>= λ empty.
              unless_failed empty (fat32_remove (str_to_upper path)))
          else return false
    ]

  pub fat32_update_file_entry : CString → ℕ → ℕ → Io Bool
  fat32_update_file_entry path start_cluster size = in_parent path λ dir name.
      with_cluster drv ctx clock dir.start_cluster λ cluster_data.
        elim (entry_named (ctx.cluster_size / entry_size) 0 name cluster_data) [
          | none ↦ return false
          | some i ↦ do
            (fat_time, fat_date) ← fat_now clock
            write_cluster drv ctx clock (cluster_to_lba ctx dir.start_cluster) (
                put_entry cluster_data (i * entry_size) (
                  resized_entry start_cluster size fat_time fat_date
                    (entry_at cluster_data (i * entry_size))))
        ]
