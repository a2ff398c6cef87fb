-- ===== src/Fat32/Dir/Lookup.antt =====
-- What the first `fat32_read_dir` of a directory returns.
use minios_grub_bootloader.Base.{
  ℕ, zero, suc, ◌+◌, ◌*◌, ◌^◌, ◌≤◌, ◌<◌, ◌≡◌, refl, ◌∙◌, ◌⊎◌, inl, inr, true, false, ◌&&◌, ◌||◌,
  Option, none, some, List, arith, leb, ◌==◌, if◌then◌else◌, Bool-cases, u32, byte_at, eq_of_test,
  ne_of_test,
}
use minios_grub_bootloader.Fat32.Dir.{entry_at, read_dir_loop, fat32_read_dir}
use minios_grub_bootloader.Fat32.Types.{Context, File, attr_long_name}
use minios_grub_bootloader.Fat32.Table.{fat32_next_cluster, fat32_read_cluster}
use minios_grub_bootloader.Disk.{Disk, Driver}
use minios_grub_bootloader.Fat32.Io.{Outcome, done}
use minios_grub_bootloader.Fat32.Names.{DirEntry, entry_size, char_is, attributes}

-- Entry `k` of a cluster is in use and is part of a long name.
abbrev pub IsHidden : List ℕ → ℕ → Type 0
IsHidden bytes k =
    (char_is (byte_at (entry_at bytes (entry_size * k)) 0) 0 ≡ false)
    × (attributes (entry_at bytes (entry_size * k)) ≡ attr_long_name)

-- The first entry that is no long name, of those in front of the last one, number `left`, and the
-- directory behind it, in its cluster; or nothing.
pub data IsFirstShown (left : ℕ) (bytes : List ℕ) (cluster : ℕ)
    : Option DirEntry × File → Type 0 where
  shown :
      {dir : File} (k : ℕ)
      → k < left
      → ((j : ℕ) → j < k → IsHidden bytes j)
      → char_is (byte_at (entry_at bytes (entry_size * k)) 0) 0 ≡ false
      → (attributes (entry_at bytes (entry_size * k)) == attr_long_name) ≡ false
      → dir.cluster_offset ≡ entry_size * (k + 1)
      → dir.current_cluster ≡ cluster
      → IsFirstShown left bytes cluster (some (entry_at bytes (entry_size * k)), dir)
  nothing :
      {dir : File} (k : ℕ)
      → k ≤ left
      → ((j : ℕ) → j < k → IsHidden bytes j)
      → (k ≡ left) ⊎ (char_is (byte_at (entry_at bytes (entry_size * k)) 0) 0 ≡ true)
      → IsFirstShown left bytes cluster (none, dir)

module _ (drv : Driver) (ctx : Context) (frame : File → List ℕ) (d : Disk) where
  -- The directory stands at offset `i` of a cluster with these bytes, the last of its chain.
  record IsAt (bytes : List ℕ) (i : ℕ) (dir : File) : Type 0 where
    directory : dir.is_dir ≡ true
    offset : dir.cluster_offset ≡ i
    reads : fat32_read_cluster drv ctx dir.current_cluster d ≡ some bytes
    last : fat32_next_cluster drv ctx dir.current_cluster d ≡ 0

  -- A byte of a directory is never the `char` of a deleted entry.
  never_deleted : (c : ℕ) → char_is c 0xE5 ≡ false
  never_deleted c = ground arith

  fat32_read_dir-open :
      (turns : ℕ) (dir : File)
      → dir.is_dir ≡ true
      → fat32_read_dir drv ctx frame turns dir d
        ≡ read_dir_loop drv ctx frame turns (frame dir) dir d
  unfolding fat32_read_dir
  fat32_read_dir-open turns dir e = rw (fat32_read_dir, e) refl

  -- A turn of `fat32_read_dir` at an entry.
  abbrev read_turn : ℕ → List ℕ → File → Outcome (Option DirEntry × File)
  read_turn turns bytes dir =
      let de = entry_at bytes dir.cluster_offset in
      let dir' = record dir {
        cluster_offset = u32 (dir.cluster_offset + entry_size);
        file_offset = u32 (dir.file_offset + entry_size);
      } in
      let next = fat32_next_cluster drv ctx dir.current_cluster d in
      let full = leb ctx.cluster_size dir'.cluster_offset in
      let dir'' =
        if full then record dir' { current_cluster = next; cluster_offset = 0 } else dir' in
      let rest = read_dir_loop drv ctx frame turns bytes dir'' d in
      if char_is (byte_at de 0) 0
      then done (none, dir) d
      else if full && (next == 0)
      then done (none, record dir' { current_cluster = 0 }) d
      else if char_is (byte_at de 0) 0xE5 || attributes de == attr_long_name
      then rest
      else done (some de, dir'') d

  read_dir_loop-turn :
      (turns : ℕ) (buffer bytes : List ℕ) (dir : File)
      → (if dir.cluster_offset == 0
          then fat32_read_cluster drv ctx dir.current_cluster d
          else some buffer)
        ≡ some bytes
      → read_dir_loop drv ctx frame (suc turns) buffer dir d ≡ read_turn turns bytes dir
  unfolding read_dir_loop
  read_dir_loop-turn turns buffer bytes dir e = rw (read_dir_loop, e) refl

  -- The directory after the entry.
  abbrev passed : File → File
  passed dir = record dir {
    cluster_offset = u32 (dir.cluster_offset + entry_size);
    file_offset = u32 (dir.file_offset + entry_size);
  }

  -- The directory behind the entry at offset `i`.
  abbrev after : File → ℕ → File
  after dir i = record dir {
    cluster_offset = i + entry_size;
    file_offset = u32 (dir.file_offset + entry_size);
  }

  module _ (bytes : List ℕ) (small : ctx.cluster_size < 2 ^ 32) where
    held :
        (buffer : List ℕ) (i : ℕ) (dir : File)
        → IsAt bytes i dir
        → (i ≡ 0) ⊎ (buffer ≡ bytes)
        → (if dir.cluster_offset == 0
            then fat32_read_cluster drv ctx dir.current_cluster d
            else some buffer)
          ≡ some bytes
    held buffer i dir at (inl e) = rw (at.offset, e) at.reads
    held buffer i dir at (inr e) = elim (Bool-cases (dir.cluster_offset == 0)) [
      | inl z ↦ rw z at.reads
      | inr z ↦ rw (z, e) refl
    ]

    -- A turn in front of the last entry.
    turn_inside :
        (inner i : ℕ) (buffer : List ℕ) (dir : File)
        → i + entry_size < ctx.cluster_size
        → IsAt bytes i dir
        → (i ≡ 0) ⊎ (buffer ≡ bytes)
        → read_dir_loop drv ctx frame (suc inner) buffer dir d ≡ (
            let e = entry_at bytes i in
            if char_is (byte_at e 0) 0
            then done (none, dir) d
            else if attributes e == attr_long_name
            then read_dir_loop drv ctx frame inner bytes (after dir i) d
            else done (some e, after dir i) d)
    turn_inside inner i buffer dir size at b =
        let next : u32 (i + entry_size) ≡ i + entry_size = omega arith in
        let inside : leb ctx.cluster_size (i + entry_size) ≡ false = ground arith in
        let turn = read_dir_loop-turn inner buffer bytes dir (held buffer i dir at b) in
        rw (turn, at.last, at.offset, next, inside, never_deleted (byte_at (entry_at bytes i) 0))
          refl

    at_start :
        (k : ℕ) {buffer : List ℕ}
        → (k ≡ 0) ⊎ (buffer ≡ bytes)
        → (entry_size * k ≡ 0) ⊎ (buffer ≡ bytes)
    at_start k (inl z) = inl (omega (arith, z))
    at_start k (inr same) = inr same

    -- From entry `k` on, with `left` more in front of the last one.
    read_dir_loop-IsFirstShown :
        (left k inner : ℕ) (buffer : List ℕ) (dir : File) (cluster : ℕ)
        → left < inner
        → entry_size * (k + left + 1) ≡ ctx.cluster_size
        → dir.current_cluster ≡ cluster
        → IsAt bytes (entry_size * k) dir
        → (k ≡ 0) ⊎ (buffer ≡ bytes)
        → ((j : ℕ) → j < k → IsHidden bytes j)
        → (o : Option DirEntry × File) × (read_dir_loop drv ctx frame inner buffer dir d ≡ done o d)
          × IsFirstShown (k + left) bytes cluster o
    read_dir_loop-IsFirstShown left k zero buffer dir cluster hi size here at b hidden_before =
        absurd (omega arith)
    read_dir_loop-IsFirstShown zero k (suc inner) buffer dir cluster hi size here at b
          hidden_before =
        let last : leb ctx.cluster_size (u32 (entry_size * k + entry_size)) ≡ true = ground arith in
        let turn =
          read_dir_loop-turn inner buffer bytes dir
            (held buffer (entry_size * k) dir at (at_start k b)) in
        elim (Bool-cases (char_is (byte_at (entry_at bytes (entry_size * k)) 0) 0)) [
          | inl unused ↦ (
            (none, dir),
            rw (turn, at.last, at.offset, unused) refl,
            nothing k (omega arith) hidden_before (inr unused),
          )
          | inr used ↦ (
            (none, record (passed dir) { current_cluster = 0 }),
            rw (turn, at.last, at.offset, used, last) refl,
            nothing k (omega arith) hidden_before (inl (omega arith)),
          )
        ]
    read_dir_loop-IsFirstShown (suc left) k (suc inner) buffer dir cluster hi size here at b
          hidden_before =
        let e = entry_at bytes (entry_size * k) in
        let turn = turn_inside inner (entry_size * k) buffer dir (omega arith) at (at_start k b) in
        elim (Bool-cases (char_is (byte_at e 0) 0)) [
          | inl unused ↦ (
            (none, dir),
            rw (turn, unused) refl,
            nothing k (omega arith) hidden_before (inr unused),
          )
          | inr used ↦ elim (Bool-cases (attributes e == attr_long_name)) [
            | inr short_name ↦ (
              (some e, after dir (entry_size * k)),
              rw (turn, used, short_name) refl,
              shown k (omega arith) hidden_before used short_name (omega arith) here,
            )
            | inl long_name ↦
                let next : entry_size * k + entry_size ≡ entry_size * (k + 1) = omega arith in
                let again : IsAt bytes (entry_size * (k + 1)) (after dir (entry_size * k)) =
                  record {
                    directory = at.directory;
                    offset = next;
                    reads = at.reads;
                    last = at.last;
                  } in
                let (o, returns, first) =
                  read_dir_loop-IsFirstShown left (k + 1) inner bytes (after dir (entry_size * k))
                    cluster (omega arith) (omega arith) here again (inr refl)
                    (λ j h. elim (Bool-cases (j == k)) [
                      | inl same ↦ rw (eq_of_test j k same) (used, eq_of_test _ _ long_name)
                      | inr other ↦ hidden_before j (omega (arith, ne_of_test j k other))
                    ]) in
                let count : k + 1 + left ≡ k + suc left = omega arith in
                (o, rw (turn, used, long_name) returns, rw count at first)
          ]
        ]

    -- Whatever the array of the function holds before, for a directory that stands at the start of a
    -- cluster of `left + 1` entries and less than 2^32 bytes, that can be read and is the end of its chain,
    -- with more than `left` turns: `fat32_read_dir` returns the first entry that is no long name and in
    -- front of which there are long names only, with the directory behind it in the same cluster, and
    -- none if an unused entry comes before or only the last entry is left, which it never returns. An
    -- entry that is marked as deleted is returned like any other.
    pub fat32_read_dir-IsFirstShown :
        (left turns : ℕ) (dir : File)
        → left < turns
        → entry_size * (left + 1) ≡ ctx.cluster_size
        → dir.is_dir ≡ true
        → dir.cluster_offset ≡ 0
        → fat32_read_cluster drv ctx dir.current_cluster d ≡ some bytes
        → fat32_next_cluster drv ctx dir.current_cluster d ≡ 0
        → (o : Option DirEntry × File) × (fat32_read_dir drv ctx frame turns dir d ≡ done o d)
          × IsFirstShown left bytes dir.current_cluster o
    fat32_read_dir-IsFirstShown left turns dir h size kind offset reads last =
        let none_yet : entry_size * 0 ≡ 0 = omega arith in
        let (o, returns, first) =
          read_dir_loop-IsFirstShown left 0 turns (frame dir) dir dir.current_cluster h
            (omega (arith, size)) refl
            (record { directory = kind; offset = offset; reads = reads; last = last }) (inl refl)
            (λ j p. absurd (omega arith)) in
        let count : 0 + left ≡ left = omega arith in
        (o, fat32_read_dir-open turns dir kind ∙ returns, rw count at first)
