-- ===== src/Fat32/File/Line/First.antt =====
-- `fat32_read_line` gives the first line of what is left of a file.
use minios_grub_bootloader.Fat32.File.Line.Prefix.{IsFirstLine, copy_line-IsFirstLine}
use minios_grub_bootloader.Base.{
  Bool, ℕ, zero, suc, ◌+◌, ◌-◌, ◌^◌, ◌≤◌, ◌<◌, ◌≡◌, refl, ap, ◌∙◌, ◌⊎◌, inl, inr, false, some, List,
  [], ◌++◌, append-nil, arith, ltb, leb, ◌==◌, if◌then◌else◌, Bool-cases, u32, length, eq_of_test,
  ne_of_test, length-append, lt_of_leb, lt_of_ltb, le_of_ltb,
}
use minios_grub_bootloader.Fat32.File.Line.Turn.{
  left_of, IsLine, line_of, IsLine-stop, IsLine-back, IsLine-same, taken, read, piece, copied,
  line_ended, line_going, go_on, line_loop-turn,
}
use minios_grub_bootloader.Fat32.File.Line.{fat32_read_line, copy_line, line_loop}
use minios_grub_bootloader.Fat32.File.Line.Copied.{
  length-copy_line, copy_line_bounds, copy_line-empty, copy_line-no_room,
}
use minios_grub_bootloader.Fat32.File.Contents.{contents, length-contents}
use minios_grub_bootloader.Disk.{Disk, Driver, Reads, IsFormatted}
use minios_grub_bootloader.Fat32.Types.{Context, IsMounted, File}
use minios_grub_bootloader.Fat32.File.Read.Round.{IsOpen}

module _ (drv : Driver) (ctx : Context) (d : Disk) (reads : Reads drv) (m : IsMounted ctx)
    (formatted : IsFormatted d) where
  nothing_left : (f : File) → f.size - f.file_offset ≡ 0 → left_of drv ctx d f ≡ []
  unfolding contents
  nothing_left f e = rw e refl

  line_loop-IsLine :
      (fuel limit before : ℕ) (out : List ℕ) (f : File)
      → limit - length out < fuel
      → f.is_dir ≡ false
      → IsOpen drv ctx d f
      → f.size + ctx.cluster_size < 2 ^ 32
      → (before + length out ≡ f.file_offset) ⊎ (limit ≤ length out)
      → IsLine drv ctx d before f.start_cluster f.size
          (line_of drv ctx d limit out f)
          (line_loop drv ctx d fuel limit before out f)
  unfolding line_loop copy_line
  line_loop-IsLine zero limit before out f enough kind o small at = absurd (omega arith)
  line_loop-IsLine (suc fuel) limit before out f enough kind o small at =
      elim (Bool-cases (leb limit (length out))) [
        | inl full ↦
            rw (line_loop, full)
              (IsLine-stop reads m formatted before f.start_cluster f.size out f _ (
                ap (λ more. (out ++ more.0, more.1))
                  (copy_line-no_room (limit - length out) (left_of drv ctx d f) (ground arith))
                ∙ ap (λ b. (b, false)) (append-nil out)))
        | inr room ↦
            let r = read reads m formatted f kind o in
            let long =
              length-contents drv ctx d f.start_cluster f.file_offset
                (taken reads m formatted f kind o) in
            elim (Bool-cases (r.got.count == 0)) [
              | inl end ↦
                  rw (line_loop, room, r.returns, end)
                    (IsLine-stop reads m formatted before f.start_cluster f.size out r.got.file _ (
                      ap (λ more. (out ++ more.0, more.1))
                        (ap (copy_line (limit - length out))
                            (nothing_left f (omega (arith, eq_of_test r.got.count 0 end, r.count)))
                          ∙ copy_line-empty (limit - length out))
                      ∙ ap (λ b. (b, false)) (append-nil out)))
              | inr any ↦
                  let c = copied reads m formatted f kind o limit out in
                  let below = lt_of_leb limit (length out) room in
                  let here : before + length out ≡ f.file_offset = omega (arith, below) in
                  let n =
                    copy_line_bounds (limit - length out) (piece reads m formatted f kind o) in
                  let more = length-append out c.0 in
                  let some_read = ne_of_test r.got.count 0 any in
                  let stored =
                    n.2 (omega (arith, below)) (omega (arith, long, r.count, some_read)) in
                  elim (Bool-cases c.1) [
                    | inl ended ↦
                        rw
                          (
                            line_ended reads m formatted f kind o limit out ended,
                            line_loop-turn reads m formatted f kind o fuel limit before out room any
                                ∙ ap (go_on reads m formatted f kind o fuel limit before out c.0)
                                    ended,
                          )
                          (IsLine-same reads m formatted r.same_start r.same_size (
                            IsLine-back reads m formatted before (out ++ c.0) r.got.file
                              (r.same_kind ∙ kind) r.open_after (omega (arith, r.same_size))
                              (omega (arith, more, n.1, long, here, r.same_size, o.offset_in))))
                    | inr going ↦
                        let amount =
                          length-copy_line (limit - length out) (piece reads m formatted f kind o)
                            going in
                        let going_on : (before + length (out ++ c.0) ≡ r.got.file.file_offset)
                            ⊎ (limit ≤ length (out ++ c.0)) =
                          elim (Bool-cases
                            (ltb (limit - length out) (taken reads m formatted f kind o))) [
                              | inl fills ↦
                                  inr (omega (arith, more, amount, long, lt_of_ltb _ _ fills))
                              | inr fits ↦ inl (
                                  omega
                                    (arith, more, amount, long, le_of_ltb _ _ fits, here, r.moved))
                            ] in
                        rw
                          (
                            line_going reads m formatted f kind o limit out going,
                            line_loop-turn reads m formatted f kind o fuel limit before out room any
                                ∙ ap (go_on reads m formatted f kind o fuel limit before out c.0)
                                    going,
                          )
                          (IsLine-same reads m formatted r.same_start r.same_size (
                            line_loop-IsLine fuel limit before (out ++ c.0) r.got.file
                              (omega (arith, more, below, stored)) (r.same_kind ∙ kind) r.open_after
                              (omega (arith, r.same_size)) going_on))
                  ]
            ]
      ]

  -- The line as the inner loop copies it from the bytes that are left.
  pub fat32_read_line-copied :
      (f : File) (size : ℕ)
      → f.is_dir ≡ false
      → IsOpen drv ctx d f
      → f.size + ctx.cluster_size < 2 ^ 32
      → 0 < size
      → size < 2 ^ 32
      → IsLine drv ctx d f.file_offset f.start_cluster f.size
          (copy_line (size - 1) (left_of drv ctx d f))
          (fat32_read_line drv ctx d f size)
  unfolding fat32_read_line
  fat32_read_line-copied f size kind o small any fits =
      let limit : u32 (size + 2 ^ 32 - 1) ≡ size - 1 = omega arith in
      let enters : fat32_read_line drv ctx d f size
          ≡ line_loop drv ctx d (size - 1 + 1) (size - 1) f.file_offset [] f =
        ap
          (λ b.
            if b
            then some (record { count = 0; out = []; file = f })
            else line_loop drv ctx d (u32 (size + 2 ^ 32 - 1) + 1) (u32 (size + 2 ^ 32 - 1))
                f.file_offset [] f)
          kind
        ∙ ap (λ n. line_loop drv ctx d (n + 1) n f.file_offset [] f) limit in
      let line : copy_line (size - 1) (left_of drv ctx d f) ≡ line_of drv ctx d (size - 1) [] f =
        ap (λ n. copy_line n (left_of drv ctx d f)) (omega arith) in
      rw (enters, line)
        (line_loop-IsLine (size - 1 + 1) (size - 1) f.file_offset [] f (omega arith) kind o small
          (inl (omega arith)))

  -- On a mounted, formatted volume with a driver that reads, for an open file, not a directory, whose
  -- size and a cluster stay below 2^32, and a buffer of one byte at least and less than 2^32:
  -- `fat32_read_line` ends. It returns the length of the first line of what is left of the file, its
  -- end of line included, or of as much of it as leaves room for a NUL, puts these bytes and a NUL
  -- into the buffer, or nothing where there is no byte, and when it has come to the end of the line
  -- the file stands behind it and is open there, so that the next call gives the next line.
  pub fat32_read_line-IsLine :
      (f : File) (size : ℕ)
      → f.is_dir ≡ false
      → IsOpen drv ctx d f
      → f.size + ctx.cluster_size < 2 ^ 32
      → 0 < size
      → size < 2 ^ 32
      → (line : List ℕ × Bool) × IsFirstLine (size - 1) (left_of drv ctx d f) line
        × IsLine drv ctx d f.file_offset f.start_cluster f.size line
            (fat32_read_line drv ctx d f size)
  fat32_read_line-IsLine f size kind o small any fits = (
    copy_line (size - 1) (left_of drv ctx d f),
    copy_line-IsFirstLine (size - 1) (left_of drv ctx d f),
    fat32_read_line-copied f size kind o small any fits,
  )
