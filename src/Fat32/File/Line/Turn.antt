-- ===== src/Fat32/File/Line/Turn.antt =====
-- One turn of the loop of `fat32_read_line`, and what a call leaves.
use minios_grub_bootloader.Base.{
  ℕ, suc, ◌+◌, ◌-◌, ◌^◌, ◌≤◌, ◌<◌, min, ◌≡◌, refl, sym, ap, ap₂, ◌∙◌, Bool, true, false, Option,
  some, List, [], ◌++◌, append_assoc, arith, leb, ◌==◌, if◌then◌else◌, u32, length, take, take_all,
  length-append,
}
use minios_grub_bootloader.Fat32.File.Line.{copy_line, line_loop, stop, seek_back, Line, terminated}
use minios_grub_bootloader.Fat32.File.Line.Back.{IsSought-IsOpen}
use minios_grub_bootloader.Fat32.File.Line.Copied.{copy_line-append, length-copy_line}
use minios_grub_bootloader.Fat32.File.Contents.{contents, contents-add, length-contents}
use minios_grub_bootloader.Fat32.File.Read.{fat32_read-IsRead}
use minios_grub_bootloader.Disk.{Disk, Driver, Reads, IsFormatted}
use minios_grub_bootloader.Fat32.Types.{Context, IsMounted, File}
use minios_grub_bootloader.Fat32.File.{fat32_read}
use minios_grub_bootloader.Fat32.File.Read.Round.{IsRead, IsOpen}

-- What a call does that began at the offset `before`: the line, and whether it is whole.
pub record IsLine (drv : Driver) (ctx : Context) (d : Disk) (before start size : ℕ)
    (line : List ℕ × Bool) (answer : Option Line) : Type 0 where
  pub got : Line
  pub returns : answer ≡ some got
  pub count : got.count ≡ length line.0
  pub out : got.out ≡ terminated line.0
  pub behind :
      line.1 ≡ true
      → (got.file.file_offset ≡ before + length line.0)
        × (got.file.start_cluster ≡ start)
        × (got.file.size ≡ size)
        × (got.file.is_dir ≡ false)
        × IsOpen drv ctx d got.file

module _ (drv : Driver) (ctx : Context) (d : Disk) where
  -- The bytes that are left.
  abbrev pub left_of : File → List ℕ
  left_of f = contents drv ctx d f.start_cluster f.file_offset (f.size - f.file_offset)

  -- The line that the loop makes of the bytes so far and the file.
  abbrev pub line_of : ℕ → List ℕ → File → List ℕ × Bool
  line_of limit out f =
      let more = copy_line (limit - length out) (left_of f) in (out ++ more.0, more.1)

module _ {drv : Driver} {ctx : Context} {d : Disk} (reads : Reads drv) (m : IsMounted ctx)
    (formatted : IsFormatted d) where
  pub IsLine-stop :
      (before start size : ℕ) (out : List ℕ) (f : File) (line : List ℕ × Bool)
      → line ≡ (out, false)
      → IsLine drv ctx d before start size line (stop out f)
  IsLine-stop before start size out f line e = rw e (record {
    got = record { count = length out; out = terminated out; file = f };
    returns = refl;
    count = refl;
    out = refl;
    behind = λ whole. absurd (cc);
  })

  pub IsLine-back :
      (before : ℕ) (out : List ℕ) (f : File)
      → f.is_dir ≡ false
      → IsOpen drv ctx d f
      → f.size + ctx.cluster_size < 2 ^ 32
      → before + length out ≤ f.size
      → IsLine drv ctx d before f.start_cluster f.size
          (out, true)
          (seek_back drv ctx d before out f)
  unfolding seek_back
  IsLine-back before out f kind o small inside =
      let at : u32 (before + length out) ≡ before + length out = omega arith in
      let (s, open_there) = IsSought-IsOpen drv ctx d m f (before + length out) o small inside in
      record {
        got = record { count = length out; out = terminated out; file = s.file };
        returns = rw (seek_back, at, s.returns) refl;
        count = refl;
        out = refl;
        behind = λ whole. (s.at, s.same_start, s.same_size, s.same_kind ∙ kind, open_there);
      }

  pub IsLine-same :
      {before start start' size size' : ℕ} {line : List ℕ × Bool} {answer : Option Line}
      → start ≡ start'
      → size ≡ size'
      → IsLine drv ctx d before start size line answer
      → IsLine drv ctx d before start' size' line answer
  IsLine-same e e' l = rw (sym e, sym e') l

  -- One read of the loop.
  module _ (f : File) (kind : f.is_dir ≡ false) (o : IsOpen drv ctx d f) where
    abbrev pub taken : ℕ
    taken = min 512 (f.size - f.file_offset)

    pub read : IsRead drv ctx d f [] 0 taken (fat32_read drv ctx d f 512)
    read = fat32_read-IsRead drv ctx d reads m formatted f 512 kind o

    abbrev pub piece : List ℕ
    piece = contents drv ctx d f.start_cluster f.file_offset taken

    pub buffer : take read.got.count read.got.out ≡ piece
    buffer =
        ap (take read.got.count) read.out
        ∙ take_all read.got.count piece (
            omega
              (arith, read.count, length-contents drv ctx d f.start_cluster f.file_offset taken))

    split : left_of drv ctx d f ≡ piece ++ left_of drv ctx d read.got.file
    split =
        ap (contents drv ctx d f.start_cluster f.file_offset) (omega (arith, o.offset_in))
        ∙ contents-add drv ctx d f.start_cluster f.file_offset taken
            (f.size - f.file_offset - taken)
        ∙ ap (λ r. piece ++ r) (sym rest)
      where
        rest :
            left_of drv ctx d read.got.file
            ≡ contents drv ctx d f.start_cluster
                (f.file_offset + taken)
                (f.size - f.file_offset - taken)
        rest =
            ap
              (λ s.
                contents drv ctx d s read.got.file.file_offset
                  (read.got.file.size - read.got.file.file_offset))
              read.same_start
            ∙ ap₂ (contents drv ctx d f.start_cluster) read.moved
                (omega (arith, read.moved, read.same_size, o.offset_in))

    -- The line when the read has an end of line in it, and when it has none.
    module _ (limit : ℕ) (out : List ℕ) where
      abbrev pub copied : List ℕ × Bool
      copied = copy_line (limit - length out) piece

      abbrev behind_out : List ℕ × Bool → List ℕ × Bool
      behind_out more = (out ++ more.0, more.1)

      whole : copy_line (limit - length out) (left_of drv ctx d f) ≡ (
          if copied.1 then copied else (
            copied.0
                ++ (copy_line
                    (limit - length out - length piece)
                    (left_of drv ctx d read.got.file)).0,
            (copy_line (limit - length out - length piece) (left_of drv ctx d read.got.file)).1,
          ))
      whole =
          ap (copy_line (limit - length out)) split
          ∙ copy_line-append (limit - length out) piece (left_of drv ctx d read.got.file)

      pub line_ended : copied.1 ≡ true → line_of drv ctx d limit out f ≡ (out ++ copied.0, true)
      line_ended ended =
          ap behind_out (whole ∙ rw ended refl) ∙ ap (λ b. (out ++ copied.0, b)) ended

      pub line_going :
          copied.1 ≡ false
          → line_of drv ctx d limit out f ≡ line_of drv ctx d limit (out ++ copied.0) read.got.file
      line_going going =
          let room : limit - length out - length piece ≡ limit - length (out ++ copied.0) = omega (
            arith,
            length-append out copied.0,
            length-copy_line (limit - length out) piece going,
          ) in
          let rest =
            copy_line (limit - length out - length piece) (left_of drv ctx d read.got.file) in
          ap behind_out (whole ∙ rw going refl)
          ∙ ap (λ b. (b, rest.1)) (sym (append_assoc out copied.0 rest.0))
          ∙ ap
              (λ n. (
                (out ++ copied.0) ++ (copy_line n (left_of drv ctx d read.got.file)).0,
                (copy_line n (left_of drv ctx d read.got.file)).1,
              ))
              room

    -- A turn that reads something, with what it copies.
    abbrev pub go_on : ℕ → ℕ → ℕ → List ℕ → List ℕ → Bool → Option Line
    go_on fuel limit before out copied ended = elim ended [
      | true ↦ seek_back drv ctx d before (out ++ copied) read.got.file
      | false ↦ line_loop drv ctx d fuel limit before (out ++ copied) read.got.file
    ]

    pub line_loop-turn :
        (fuel limit before : ℕ) (out : List ℕ)
        → leb limit (length out) ≡ false
        → (read.got.count == 0) ≡ false
        → line_loop drv ctx d (suc fuel) limit before out f
          ≡ go_on fuel limit before out (copied limit out).0 (copied limit out).1
    unfolding line_loop
    line_loop-turn fuel limit before out room any =
        rw (line_loop, room, read.returns, any)
          (ap
            (λ b.
              go_on fuel limit before out (copy_line (limit - length out) b).0
                (copy_line (limit - length out) b).1)
            buffer)
