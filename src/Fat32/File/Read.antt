-- ===== src/Fat32/File/Read.antt =====
-- `fat32_read` against the contents of the file.
pub mod Round
use minios_grub_bootloader.Base.{
  ℕ, zero, suc, ◌+◌, ◌-◌, ◌*◌, ◌/◌, ◌%◌, ◌^◌, ◌≤◌, ◌<◌, min, bit_and, bit_or, ◌≡◌, refl, sym, ap,
  ap₂, ◌∙◌, ◌≢◌, ◌↔◌, ◌⊎◌, inl, inr, Bool, true, false, not, ◌&&◌, ◌||◌, Option, none, some, List,
  [], ◌∷◌, ◌++◌, map, append-nil, append_assoc, arith, ltb, leb, ◌==◌, if◌then◌else◌, Bool-cases,
  Option-cases, u8, u16, u32, ◌<<<◌, ◌>>>◌, length, get_elem?, get_or, set, take, drop, replicate,
  eq_of_test,
}
use minios_grub_bootloader.Fat32.Table.Data.{cluster_bytes}
use minios_grub_bootloader.Disk.{Disk, Driver, Reads, IsFormatted}
use minios_grub_bootloader.Disk.Memory.{length-sectors}
use minios_grub_bootloader.Fat32.Types.{Context, IsMounted, InRange, File}
use minios_grub_bootloader.Fat32.Table.{fat32_next_cluster, fat32_read_cluster}
use minios_grub_bootloader.Fat32.Table.Entry.{fat32_read_cluster_lem}
use minios_grub_bootloader.Fat32.File.{Got, chunk, advance, read_loop, fat32_read}
use minios_grub_bootloader.Fat32.File.Contents.{
  nth_cluster, contents, contents-add, contents_of_cluster, div_of_parts, mod_of_parts,
}
use native.Mathlib.Decide.{dec_lt}
use Round.{
  IsOpen, IsRead, IsRead-nothing, IsRead-more, bytes_here, taken, moved, cluster_moved,
  IsOpen-within, IsOpen-next, IsOpen-end,
}

module _ (drv : Driver) (ctx : Context) (d : Disk) (reads : Reads drv) (m : IsMounted ctx)
    (formatted : IsFormatted d) where
  -- The bytes that one round takes: a part of the current cluster.
  chunk_bounds :
      (f : File) (remaining : ℕ)
      → 0 < remaining
      → f.file_offset < f.size
      → (0 < chunk ctx f remaining)
        × (chunk ctx f remaining ≤ remaining)
        × (f.file_offset + chunk ctx f remaining ≤ f.size)
        × (f.file_offset % ctx.cluster_size + chunk ctx f remaining ≤ ctx.cluster_size)
  chunk_bounds f remaining p q =
      let rest : f.file_offset % ctx.cluster_size < ctx.cluster_size =
        omega (arith, m.cluster_bytes, m.cluster_pos) in
      ground arith

  -- The file after a round that ends its cluster.
  abbrev jump : File → ℕ → File
  jump f n = record (advance f n) {
    current_cluster = fat32_next_cluster drv ctx f.current_cluster d;
    cluster_offset = 0;
  }

  -- The bytes of the file that the loop has still to read.
  read_loop-IsRead :
      (fuel remaining bytes_read : ℕ) (before : List ℕ) (f : File)
      → remaining < fuel
      → IsOpen drv ctx d f
      → IsRead drv ctx d f before bytes_read
          (min remaining (f.size - f.file_offset))
          (read_loop drv ctx d fuel remaining bytes_read before f)
  unfolding read_loop
  read_loop-IsRead zero remaining bytes_read before f h o = absurd (omega arith)
  read_loop-IsRead (suc fuel) remaining bytes_read before f h o =
      elim (Bool-cases (remaining == 0 || leb f.size f.file_offset)) [
        | inl stop ↦
            rw (read_loop, stop) (IsRead-nothing drv ctx d f before bytes_read _ (ground arith) o)
        | inr go ↦
            let below : f.file_offset < f.size = ground arith in
            let b = chunk_bounds f remaining (ground arith) below in
            let n = chunk ctx f remaining in
            let got = taken drv ctx d m f o below n b.2 b.3 formatted in
            let at = moved drv ctx d m f o below n b.2 b.3 in
            let inside = cluster_moved drv ctx d m f o below n b.2 b.3 in
            rw
              (
                read_loop,
                go,
                bytes_here drv ctx d m f o below (chunk ctx f remaining) b.2 b.3 reads,
              )
              (elim (Bool-cases
                (leb ctx.cluster_size (u32 (f.cluster_offset + chunk ctx f remaining)))) [
                  | inr within ↦
                      rw (within, got)
                        (IsRead-more drv ctx d f (advance f n) before bytes_read n
                          (min (remaining - n) (f.size - (advance f n).file_offset)) _ _
                          (omega (arith, at)) at refl refl refl
                          (read_loop-IsRead fuel (remaining - n) (bytes_read + n) _ (advance f n)
                            (omega arith)
                            (IsOpen-within drv ctx d m f o below n b.2 b.3
                              (ground (arith, inside)))))
                  | inl full ↦
                      rw full
                        (elim (Bool-cases (fat32_next_cluster drv ctx f.current_cluster d == 0)) [
                          | inl last ↦
                              rw (last, got)
                                (let over =
                                    IsOpen-end drv ctx d m f o below n b.2 b.3
                                      (ground (arith, inside)) (eq_of_test _ 0 last) in
                                  IsRead-more drv ctx d f
                                    (record (advance f n) { current_cluster = 0 }) before bytes_read
                                    n 0 _ _ (omega (arith, over.0)) at refl refl refl
                                    (IsRead-nothing drv ctx d
                                      (record (advance f n) { current_cluster = 0 }) _
                                      (bytes_read + n) 0 refl over.1))
                          | inr next ↦
                              rw (next, got)
                                (IsRead-more drv ctx d f (jump f n) before bytes_read n
                                  (min (remaining - n) (f.size - (advance f n).file_offset)) _ _
                                  (omega (arith, at)) at refl refl refl
                                  (read_loop-IsRead fuel (remaining - n) (bytes_read + n) _
                                    (jump f n) (omega arith)
                                    (IsOpen-next drv ctx d m f o below n b.2 b.3
                                      (ground (arith, inside)))))
                        ])
                ])
      ]

  -- On a mounted, formatted volume with a driver that reads: on an open file, not a directory,
  -- whose chain is as long as its size says, `fat32_read` ends, returns the number of bytes that
  -- the file still has, up to `size`, puts exactly those bytes into the buffer, moves the file
  -- offset past them and leaves the file open in the same sense, so that the next read goes on
  -- from there.
  pub fat32_read-IsRead :
      (f : File) (size : ℕ)
      → f.is_dir ≡ false
      → IsOpen drv ctx d f
      → IsRead drv ctx d f [] 0 (min size (f.size - f.file_offset)) (fat32_read drv ctx d f size)
  unfolding fat32_read
  fat32_read-IsRead f size file o =
      let enters : fat32_read drv ctx d f size ≡ read_loop drv ctx d (size + 1) size 0 [] f =
        ground arith in
      rw enters (read_loop-IsRead (size + 1) size 0 [] f (omega arith) o)
