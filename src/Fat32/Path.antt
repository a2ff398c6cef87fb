-- ===== src/Fat32/Path.antt =====
-- Paths in fat32.c: `split_path` and `fat32_open_file`. The buffers of `split_path` are as long as
-- they have to be.
use minios_grub_bootloader.Base.{
  pos, ℕ, zero, suc, ◌+◌, ◌-◌, bit_and, true, false, Option, none, some, List, [], ◌∷◌, ◌==◌,
  if◌then◌else◌, take, drop,
}
use minios_grub_bootloader.Libc.Strings.{CString, strlen, strcmp, strrchr}
use minios_grub_bootloader.Disk.{Disk, Driver}
use minios_grub_bootloader.Fat32.Types.{Context, File, zeroed_file, attr_directory}
use minios_grub_bootloader.Fat32.Io.{Outcome, done, panics, unfinished, Io}
use minios_grub_bootloader.Fat32.Names.{
  DirEntry, attributes, first_cluster, file_size, str_to_upper,
}
use minios_grub_bootloader.Fat32.Dir.{fat32_find_file}

-- The parent and the name.
pub split_path : CString → CString × CString
split_path path = elim (strrchr path 47) [
  | none ↦ ([], path)
  | some last_slash ↦
      let parent_len = strlen path - strlen last_slash in
      (if parent_len == 0 then 47 ∷ [] else take parent_len path, drop 1 last_slash)
]

-- `while (*p == '/') p++;`
pub skip_slashes : CString → CString
skip_slashes [] = []
skip_slashes (c ∷ p) = let rest = skip_slashes p in if c == 47 then rest else c ∷ p

-- `component` gets at most `room` characters; the second string is `p` after the loop.
pub cut_component : ℕ → CString → CString × CString
cut_component zero p = ([], p)
cut_component (suc room) [] = ([], [])
cut_component (suc room) (c ∷ p) =
    let rest = cut_component room p in if c == 47 then ([], c ∷ p) else (c ∷ rest.0, rest.1)

abbrev pub opened_dir : ℕ → File
opened_dir cluster = record zeroed_file {
  start_cluster = cluster;
  current_cluster = cluster;
  is_dir = true;
}

abbrev pub opened_file : DirEntry → File
opened_file e = record zeroed_file {
  start_cluster = first_cluster e;
  current_cluster = first_cluster e;
  size = file_size e;
}

module _ (drv : Driver) (ctx : Context) (frame : File → List ℕ) (turns : ℕ) where
  -- The loop of `fat32_open_file`; `none` is a result of `false`. A turn takes a character of the
  -- path at least, which bounds the turns.
  pub open_loop : ℕ → CString → ℕ → Disk → Outcome (Option File)
  open_loop zero p current d = unfinished
  open_loop (suc left) p current d =
      let (component, rest) = cut_component 12 (skip_slashes p) in
      elim component [
        | [] ↦ done (some (opened_dir current)) d
        | c ∷ cs ↦ elim (fat32_find_file drv ctx frame turns current (c ∷ cs) d) [
          | panics ↦ panics
          | unfinished ↦ unfinished
          | done none d' ↦ done none d'
          | done (some e) d' ↦ elim (bit_and (attributes e) attr_directory == 0) [
            | true ↦ done (some (opened_file e)) d'
            | false ↦ open_loop left rest (first_cluster e) d'
          ]
        ]
      ]

  pub fat32_open_file : CString → Io (Option File)
  fat32_open_file path =
      let upper = str_to_upper path in
      elim (strcmp upper (47 ∷ [])) [
        | pos zero ↦ λ d. done (some (opened_dir ctx.root_cluster)) d
        | _ ↦ open_loop (strlen path + 1) upper ctx.root_cluster
      ]
