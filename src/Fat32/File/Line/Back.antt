-- ===== src/Fat32/File/Line/Back.antt =====
-- Where the file stands after the `fat32_seek` that `fat32_read_line` calls.
use minios_grub_bootloader.Base.{
  ℕ, zero, suc, ◌+◌, ◌-◌, ◌^◌, ◌≤◌, ◌<◌, ◌≡◌, refl, inl, inr, Bool, true, false, Option, none, some,
  arith, ltb, leb, ◌==◌, Bool-cases, Option-cases, u32, le_of_leb, ltb_of_le, lt_of_ltb, le_of_ltb,
}
use minios_grub_bootloader.Fat32.File.Seek.{fat32_seek_lem, sought}
use minios_grub_bootloader.Disk.{Disk, Driver}
use minios_grub_bootloader.Fat32.Types.{Context, IsMounted, File}
use minios_grub_bootloader.Fat32.Table.{fat32_next_cluster}
use minios_grub_bootloader.Fat32.File.{fat32_seek, seek_loop}
use minios_grub_bootloader.Fat32.File.Read.Round.{IsOpen}

module _ (drv : Driver) (ctx : Context) (d : Disk) where
  -- A seek ends, and leaves the file offset that was asked for.
  pub record IsSought (f : File) (offset : ℕ) (answer : Option (Bool × File)) : Type 0 where
    pub done : Bool
    pub file : File
    pub returns : answer ≡ some (done, file)
    pub at : file.file_offset ≡ offset
    pub same_start : file.start_cluster ≡ f.start_cluster
    pub same_size : file.size ≡ f.size
    pub same_kind : file.is_dir ≡ f.is_dir

  seek_loop_total :
      (fuel offset target position : ℕ)
      → 0 < ctx.cluster_size
      → position ≤ offset
      → offset + ctx.cluster_size < 2 ^ 32
      → offset - position < fuel
      → (o : Option (ℕ × ℕ)) × (seek_loop drv ctx d fuel offset target position ≡ some o)
  unfolding seek_loop
  seek_loop_total zero offset target position some_bytes low fits enough = absurd (omega arith)
  seek_loop_total (suc fuel) offset target position some_bytes low fits enough =
      elim (Bool-cases (leb (u32 (position + ctx.cluster_size)) offset)) [
        | inr here ↦ (some (target, position), rw (seek_loop, here) refl)
        | inl further ↦ elim (Bool-cases (fat32_next_cluster drv ctx target d == 0)) [
          | inl end ↦ (none, rw (seek_loop, further, end) refl)
          | inr more ↦
              let goes = le_of_leb (u32 (position + ctx.cluster_size)) offset further in
              let step : u32 (position + ctx.cluster_size) ≡ position + ctx.cluster_size =
                omega arith in
              let (o, e) =
                seek_loop_total fuel offset (fat32_next_cluster drv ctx target d)
                  (u32 (position + ctx.cluster_size)) some_bytes goes fits (omega (arith, step)) in
              (o, rw (seek_loop, further, more) e)
        ]
      ]

  fat32_seek-IsSought :
      (f : File) (offset : ℕ)
      → 0 < ctx.cluster_size
      → offset ≤ f.size
      → offset + ctx.cluster_size < 2 ^ 32
      → IsSought f offset (fat32_seek drv ctx d f offset)
  unfolding fat32_seek
  fat32_seek-IsSought f offset some_bytes inside fits =
      let fine = ltb_of_le f.size offset inside in
      let (o, e) =
        seek_loop_total (offset + 1) offset f.start_cluster 0 some_bytes (omega arith) fits
          (omega arith) in
      elim (Option-cases o) [
        | inl end ↦ record {
          done = false;
          file = record f { file_offset = offset };
          returns = rw (fat32_seek, fine, e, end) refl;
          at = refl;
          same_start = refl;
          same_size = refl;
          same_kind = refl;
        }
        | inr ((target, position), there) ↦ record {
          done = true;
          file = record f {
            file_offset = offset;
            current_cluster = target;
            cluster_offset = offset - position;
          };
          returns = rw (fat32_seek, fine, e, there) refl;
          at = refl;
          same_start = refl;
          same_size = refl;
          same_kind = refl;
        }
      ]

module _ (drv : Driver) (ctx : Context) (d : Disk) (m : IsMounted ctx) where
  pub some_bytes : 0 < ctx.cluster_size
  some_bytes = omega (arith, m.cluster_bytes, m.cluster_pos)

  -- Going back to an offset leaves the file open there.
  pub IsSought-IsOpen :
      (f : File) (offset : ℕ)
      → IsOpen drv ctx d f
      → f.size + ctx.cluster_size < 2 ^ 32
      → offset ≤ f.size
      → (s : IsSought drv ctx d f offset (fat32_seek drv ctx d f offset)) × IsOpen drv ctx d s.file
  IsSought-IsOpen f offset o small inside = elim (Bool-cases (ltb offset f.size)) [
    | inl below ↦
        let found = fat32_seek_lem drv ctx d m f offset o (lt_of_ltb offset f.size below) in
        (
          record {
            done = true;
            file = sought drv ctx d f offset;
            returns = found.0;
            at = refl;
            same_start = refl;
            same_size = refl;
            same_kind = refl;
          },
          found.1,
        )
    | inr end ↦
        let past = le_of_ltb offset f.size end in
        let s = fat32_seek-IsSought drv ctx d f offset some_bytes inside (omega arith) in
        (
          s,
          record {
            chain = rw (s.same_start, s.same_size) o.chain;
            size_fits = rw s.same_size o.size_fits;
            offset_in = omega (arith, s.at, s.same_size);
            cluster_at = λ h. absurd (omega (arith, h, s.at, s.same_size));
            within_cluster = λ h. absurd (omega (arith, h, s.at, s.same_size));
          },
        )
  ]
