-- ===== src/Fat32/File/Seek.antt =====
-- `fat32_seek`: where it ends, and reading from there.
use minios_grub_bootloader.Base.{
  none, ℕ, zero, suc, ◌+◌, ◌-◌, ◌*◌, ◌/◌, ◌%◌, ◌≤◌, ◌<◌, min, ◌≡◌, refl, ap, ◌∙◌, ◌≢◌, inl, inr,
  true, false, some, arith, leb, Bool-cases, u32, test_of_ne, leb_of_le, leb_of_lt, le_of_leb,
  lt_of_leb,
}
use minios_grub_bootloader.Disk.{Disk, Driver, Reads, IsFormatted}
use minios_grub_bootloader.Fat32.Types.{Context, IsMounted, File}
use minios_grub_bootloader.Fat32.Table.{fat32_next_cluster}
use minios_grub_bootloader.Fat32.File.{Got, seek_loop, fat32_seek, fat32_read}
use minios_grub_bootloader.Fat32.File.Contents.{nth_cluster, contents, div_of_parts}
use minios_grub_bootloader.Fat32.File.Read.{fat32_read-IsRead}
use minios_grub_bootloader.Fat32.File.Read.Round.{IsOpen}

module _ (drv : Driver) (ctx : Context) (d : Disk) where
  -- The file after a seek to an offset inside it.
  abbrev pub sought : File → ℕ → File
  sought f offset = record f {
    file_offset = offset;
    current_cluster = nth_cluster drv ctx d f.start_cluster (offset / ctx.cluster_size);
    cluster_offset = offset - offset / ctx.cluster_size * ctx.cluster_size;
  }

  module _ (m : IsMounted ctx) (f : File) (o : IsOpen drv ctx d f) where
    size_pos : 0 < ctx.cluster_size
    size_pos = omega (arith, m.cluster_bytes, m.cluster_pos)

    -- The loop goes on to the next cluster while that one begins at or before the offset.
    forward :
        (fuel offset i : ℕ)
        → (i + 1) * ctx.cluster_size ≤ offset
        → offset ≤ f.size
        → fat32_next_cluster drv ctx (nth_cluster drv ctx d f.start_cluster i) d ≢ 0
        → seek_loop drv ctx d
            (suc fuel)
            offset
            (nth_cluster drv ctx d f.start_cluster i)
            (i * ctx.cluster_size)
          ≡ seek_loop drv ctx d fuel offset
              (nth_cluster drv ctx d f.start_cluster (suc i))
              (suc i * ctx.cluster_size)
    unfolding seek_loop nth_cluster
    forward fuel offset i goes bound ne =
        let p = size_pos in
        let at : u32 (i * ctx.cluster_size + ctx.cluster_size) ≡ suc i * ctx.cluster_size =
          omega (arith, o.size_fits) in
        rw
          (
            seek_loop,
            at,
            leb_of_le (suc i * ctx.cluster_size) offset (omega arith),
            test_of_ne _ 0 ne,
          )
          (ap
            (seek_loop drv ctx d fuel offset
              (fat32_next_cluster drv ctx (nth_cluster drv ctx d f.start_cluster i) d))
            at)

    stops :
        (fuel offset i : ℕ)
        → offset < f.size
        → i * ctx.cluster_size ≤ offset
        → offset < (i + 1) * ctx.cluster_size
        → seek_loop drv ctx d
            (suc fuel)
            offset
            (nth_cluster drv ctx d f.start_cluster i)
            (i * ctx.cluster_size)
          ≡ some (
              some (
                nth_cluster drv ctx d f.start_cluster (offset / ctx.cluster_size),
                offset / ctx.cluster_size * ctx.cluster_size,
              ))
    unfolding seek_loop
    stops fuel offset i inside reached before =
        let at : u32 (i * ctx.cluster_size + ctx.cluster_size) ≡ suc i * ctx.cluster_size =
          omega (arith, o.size_fits) in
        let number : offset / ctx.cluster_size ≡ i =
          ap (λ t. t / ctx.cluster_size) (omega arith)
          ∙ div_of_parts i ctx.cluster_size (offset - i * ctx.cluster_size) (omega arith) in
        rw (seek_loop, at, leb_of_lt (suc i * ctx.cluster_size) offset (omega arith), number)

    -- A cluster of the chain that begins inside the file is not 0.
    present :
        (i : ℕ)
        → (i + 1) * ctx.cluster_size < f.size
        → fat32_next_cluster drv ctx (nth_cluster drv ctx d f.start_cluster i) d ≢ 0
    unfolding nth_cluster
    present i h e = let r = o.chain (suc i) (omega arith) in omega (arith, r.0, e)

    runs_out :
        (fuel offset i : ℕ)
        → (i + 1) * ctx.cluster_size ≤ offset
        → offset ≤ f.size
        → fat32_next_cluster drv ctx (nth_cluster drv ctx d f.start_cluster i) d ≡ 0
        → seek_loop drv ctx d
            (suc fuel)
            offset
            (nth_cluster drv ctx d f.start_cluster i)
            (i * ctx.cluster_size)
          ≡ some none
    unfolding seek_loop
    runs_out fuel offset i goes bound last =
        let at : u32 (i * ctx.cluster_size + ctx.cluster_size) ≡ suc i * ctx.cluster_size =
          omega (arith, o.size_fits) in
        rw (seek_loop, at, leb_of_le (suc i * ctx.cluster_size) offset (omega arith), last)

    -- A file that fills the `k + 1` clusters of its chain: the loop runs off the chain.
    seek_loop-full :
        (fuel i left k : ℕ)
        → i + left ≡ k
        → f.size ≡ (k + 1) * ctx.cluster_size
        → nth_cluster drv ctx d f.start_cluster (suc k) ≡ 0
        → left < fuel
        → seek_loop drv ctx d fuel f.size
            (nth_cluster drv ctx d f.start_cluster i)
            (i * ctx.cluster_size)
          ≡ some none
    unfolding nth_cluster
    seek_loop-full zero i left k e full last h = absurd (omega arith)
    seek_loop-full (suc fuel) i zero k e full last h =
        let same : i ≡ k = omega arith in
        let end = ap (λ t. (t + 1) * ctx.cluster_size) same in
        runs_out fuel f.size i (omega arith) (omega arith) (rw same last)
    seek_loop-full (suc fuel) i (suc left) k e full last h =
        let p = size_pos in
        let bound : (i + 1) * ctx.cluster_size < f.size = grind arith in
        forward fuel f.size i (omega arith) (omega arith) (present i bound)
        ∙ seek_loop-full fuel (suc i) left k (omega arith) full last (omega arith)

    seek_loop-inside :
        (fuel offset i : ℕ)
        → offset < f.size
        → i * ctx.cluster_size ≤ offset
        → offset < i * ctx.cluster_size + fuel
        → seek_loop drv ctx d fuel offset
            (nth_cluster drv ctx d f.start_cluster i)
            (i * ctx.cluster_size)
          ≡ some (
              some (
                nth_cluster drv ctx d f.start_cluster (offset / ctx.cluster_size),
                offset / ctx.cluster_size * ctx.cluster_size,
              ))
    seek_loop-inside zero offset i inside reached fuel_left = absurd (omega arith)
    seek_loop-inside (suc fuel) offset i inside reached fuel_left =
        elim (Bool-cases (leb ((i + 1) * ctx.cluster_size) offset)) [
          | inl more ↦
              let p = size_pos in
              let goes = le_of_leb ((i + 1) * ctx.cluster_size) offset more in
              forward fuel offset i goes (omega arith) (present i (omega arith))
              ∙ seek_loop-inside fuel offset (suc i) inside (omega arith) (omega arith)
          | inr done ↦
              stops fuel offset i inside reached
                (lt_of_leb ((i + 1) * ctx.cluster_size) offset done)
        ]

  remainder :
      (offset : ℕ)
      → 0 < ctx.cluster_size
      → offset - offset / ctx.cluster_size * ctx.cluster_size ≡ offset % ctx.cluster_size
  remainder offset h = grind arith

  from_start :
      (m : IsMounted ctx) (f : File) (o : IsOpen drv ctx d f) (offset : ℕ)
      → offset < f.size
      → seek_loop drv ctx d (offset + 1) offset f.start_cluster 0
        ≡ some (
            some (
              nth_cluster drv ctx d f.start_cluster (offset / ctx.cluster_size),
              offset / ctx.cluster_size * ctx.cluster_size,
            ))
  unfolding nth_cluster
  from_start m f o offset inside =
      ap (seek_loop drv ctx d (offset + 1) offset f.start_cluster) (omega arith)
      ∙ seek_loop-inside m f o (offset + 1) offset 0 inside (omega arith) (omega arith)

  -- A seek to an offset inside an open file succeeds, whatever the position was before: the file
  -- offset is the one asked for, and the file is open there.
  pub fat32_seek_lem :
      (m : IsMounted ctx) (f : File) (offset : ℕ)
      → IsOpen drv ctx d f
      → offset < f.size
      → (fat32_seek drv ctx d f offset ≡ some (true, sought f offset))
        × IsOpen drv ctx d (sought f offset)
  unfolding fat32_seek
  fat32_seek_lem m f offset o inside =
      let ends = from_start m f o offset inside in
      (
        ground (arith, ends),
        record {
          chain = o.chain;
          size_fits = o.size_fits;
          offset_in = omega arith;
          cluster_at = λ h. refl;
          within_cluster = λ h. let p = size_pos m f o in remainder offset p;
        },
      )

  -- On a mounted volume, a seek to the end of an open file that fills its last cluster, where the
  -- chain ends, fails: it returns false, with the file offset already moved and the cluster left
  -- where it was.
  pub fat32_seek_full :
      (m : IsMounted ctx) (f : File) (k : ℕ)
      → IsOpen drv ctx d f
      → f.size ≡ (k + 1) * ctx.cluster_size
      → nth_cluster drv ctx d f.start_cluster (suc k) ≡ 0
      → fat32_seek drv ctx d f f.size ≡ some (false, record f { file_offset = f.size })
  unfolding fat32_seek nth_cluster
  fat32_seek_full m f k o full last =
      let p = size_pos m f o in
      let rounds : k < f.size + 1 = grind arith in
      let off : seek_loop drv ctx d (f.size + 1) f.size f.start_cluster 0 ≡ some none =
        ap (seek_loop drv ctx d (f.size + 1) f.size f.start_cluster) (omega arith)
        ∙ seek_loop-full m f o (f.size + 1) 0 k k (omega arith) full last rounds in
      ground (arith, off)

  -- Reading after a seek to an offset below the size of an open file, on a mounted, formatted
  -- volume with a driver that reads: whatever the position was before, both calls end and succeed,
  -- and the bytes that are read are those of the file from the offset on, as many as were asked
  -- for or as the file has.
  pub fat32_read-fat32_seek :
      (reads : Reads drv) (m : IsMounted ctx) (formatted : IsFormatted d) (f : File)
      (offset size : ℕ)
      → f.is_dir ≡ false
      → IsOpen drv ctx d f
      → offset < f.size
      → (f' : File) × (got : Got) × (fat32_seek drv ctx d f offset ≡ some (true, f'))
        × (fat32_read drv ctx d f' size ≡ some got)
        × (got.out ≡ contents drv ctx d f.start_cluster offset (min size (f.size - offset)))
        × (got.count ≡ min size (f.size - offset))
  fat32_read-fat32_seek reads m formatted f offset size file o inside =
      let found = fat32_seek_lem m f offset o inside in
      let r = fat32_read-IsRead drv ctx d reads m formatted (sought f offset) size file found.1 in
      (sought f offset, r.got, found.0, r.returns, r.out, omega (arith, r.count))
