-- ===== src/Config/Lookup.antt =====
-- `config_get_str` is a search through the lines of the file.
use minios_grub_bootloader.Base.{
  ℕ, zero, suc, ◌+◌, ◌-◌, ◌^◌, ◌≤◌, ◌<◌, ◌≡◌, refl, sym, ap, ap₂, ◌∙◌, inl, inr, Bool, true, false,
  Option, none, some, List, [], arith, ◌==◌, Option-cases, length, drop, length-drop, drop-append,
  test_of_eq, test_of_ne,
}
use minios_grub_bootloader.Fat32.File.Line.Copied.{copy_line_bounds, copy_line-empty}
use minios_grub_bootloader.Fat32.File.Contents.{contents, contents-add, length-contents}
use minios_grub_bootloader.Config.{config_get_str, value_of, stored_value, get_loop}
use minios_grub_bootloader.Disk.{Disk, Driver, Reads, IsFormatted}
use minios_grub_bootloader.Fat32.Types.{Context, IsMounted, File}
use minios_grub_bootloader.Fat32.File.Read.Round.{IsOpen}
use minios_grub_bootloader.Fat32.File.Line.{copy_line, terminated, fat32_read_line}
use minios_grub_bootloader.Fat32.File.Line.Turn.{left_of, IsLine}
use minios_grub_bootloader.Fat32.File.Line.First.{fat32_read_line-copied}
use minios_grub_bootloader.Libc.Strings.{until_nul, CString}

-- The first line of the bytes, of which 511 fit the buffer.
abbrev pub first_line : List ℕ → List ℕ × Bool
first_line bytes = copy_line 511 bytes

-- Every line ends in a line feed and fits the buffer.
pub data IsLines : List ℕ → Type 0 where
  no_lines : IsLines []
  one_more :
      {bytes : List ℕ}
      → 0 < length bytes
      → (first_line bytes).1 ≡ true
      → IsLines (drop (length (first_line bytes).0) bytes)
      → IsLines bytes

-- The value of the first line that has the key.
unfoldable pub lookup : {bytes : List ℕ} → CString → IsLines bytes → Option CString
lookup key no_lines = none
lookup key (one_more {bytes = bytes} some_bytes ends rest) =
    elim (value_of key (until_nul (terminated (first_line bytes).0))) [
      | some value ↦ some value
      | none ↦ lookup key rest
    ]

abbrev pub result : Option CString → ℕ → Option (List ℕ)
result none size = none
result (some value) size = some (stored_value value size)

module _ (drv : Driver) (ctx : Context) (d : Disk) where
  -- What is left after some bytes.
  drop-contents :
      (start i n total : ℕ)
      → n ≤ total
      → drop n (contents drv ctx d start i total) ≡ contents drv ctx d start (i + n) (total - n)
  drop-contents start i n total h =
      ap (λ k. drop n (contents drv ctx d start i k)) (omega arith)
      ∙ ap (drop n) (contents-add drv ctx d start i n (total - n))
      ∙ drop-append n (contents drv ctx d start i n) (contents drv ctx d start (i + n) (total - n))
          (sym (length-contents drv ctx d start i n))

  rest_left :
      (f : File) (bytes : List ℕ) (f' : File) (n : ℕ)
      → bytes ≡ left_of drv ctx d f
      → n ≤ length bytes
      → f.file_offset ≤ f.size
      → f'.file_offset ≡ f.file_offset + n
      → f'.start_cluster ≡ f.start_cluster
      → f'.size ≡ f.size
      → drop n bytes ≡ left_of drv ctx d f'
  rest_left f bytes f' n e h inside offset start size =
      let long =
        ap length e
        ∙ length-contents drv ctx d f.start_cluster f.file_offset (f.size - f.file_offset) in
      ap (drop n) e
      ∙ drop-contents f.start_cluster f.file_offset n (f.size - f.file_offset) (omega (arith, long))
      ∙ ap₂ (contents drv ctx d f.start_cluster) (sym offset) (omega (arith, offset, size))
      ∙ ap (λ s. contents drv ctx d s f'.file_offset (f'.size - f'.file_offset)) (sym start)

module _ {drv : Driver} {ctx : Context} {d : Disk} (reads : Reads drv) (m : IsMounted ctx)
    (formatted : IsFormatted d) where
  IsLine-read :
      (f : File) (bytes : List ℕ)
      → bytes ≡ left_of drv ctx d f
      → f.is_dir ≡ false
      → IsOpen drv ctx d f
      → f.size + ctx.cluster_size < 2 ^ 32
      → IsLine drv ctx d f.file_offset f.start_cluster f.size
          (first_line bytes)
          (fat32_read_line drv ctx d f 512)
  IsLine-read f bytes e kind o small = rw e (
      fat32_read_line-copied drv ctx d reads m formatted f 512 kind o small (omega arith)
        (omega arith))

  get_loop-lookup :
      (fuel : ℕ) (key : CString) (size : ℕ) (f : File) {bytes : List ℕ} (lines : IsLines bytes)
      → bytes ≡ left_of drv ctx d f
      → length bytes < fuel
      → f.is_dir ≡ false
      → IsOpen drv ctx d f
      → f.size + ctx.cluster_size < 2 ^ 32
      → get_loop drv ctx d fuel key size f ≡ some (result (lookup key lines) size)
  unfolding get_loop lookup
  get_loop-lookup zero key size f lines e enough kind o small = absurd (omega arith)
  get_loop-lookup (suc fuel) key size f no_lines e enough kind o small =
      let r = IsLine-read f [] e kind o small in
      let none_read : r.got.count ≡ 0 = r.count ∙ ap (λ l. length l.0) (copy_line-empty 511) in
      rw (get_loop, r.returns, test_of_eq r.got.count 0 none_read) refl
  get_loop-lookup (suc fuel) key size f (one_more {bytes = bytes} any ends rest) e enough kind o
        small =
      let r = IsLine-read f bytes e kind o small in
      let b = copy_line_bounds 511 bytes in
      let stored = b.2 (omega arith) any in
      let some_read : (r.got.count == 0) ≡ false =
        test_of_ne r.got.count 0 (λ z. omega (arith, z, r.count, stored)) in
      let behind = r.behind ends in
      let left =
        rest_left drv ctx d f bytes r.got.file (length (first_line bytes).0) e b.1 o.offset_in
          behind.0 behind.1 behind.2 in
      let shorter = length-drop (length (first_line bytes).0) bytes in
      let more =
        get_loop-lookup fuel key size r.got.file rest left (omega (arith, shorter, stored)) behind.3
          behind.4 (omega (arith, behind.2)) in
      elim (Option-cases (value_of key (until_nul (terminated (first_line bytes).0)))) [
        | inl other ↦ rw (get_loop, r.returns, some_read, r.out, lookup, other) more
        | inr (value, found) ↦ rw (get_loop, r.returns, some_read, r.out, lookup, found) refl
      ]

  -- On a mounted, formatted volume with a driver that reads, for an open file at its start, not a
  -- directory, whose size and a cluster stay below 2^32, and whose bytes are lines that end in a
  -- line feed and fit a buffer of 512 bytes: `config_get_str` ends; it stores the value of the first line
  -- whose key is the one asked for, with the zeros of `strncpy` and a NUL up to the size, and returns
  -- true, or returns false if no line has that key.
  pub config_get_str-lookup :
      (key : CString) (size : ℕ) (f : File)
      (lines : IsLines (contents drv ctx d f.start_cluster 0 f.size))
      → f.is_dir ≡ false
      → f.file_offset ≡ 0
      → IsOpen drv ctx d f
      → f.size + ctx.cluster_size < 2 ^ 32
      → config_get_str drv ctx d f key size ≡ some (result (lookup key lines) size)
  unfolding config_get_str
  config_get_str-lookup key size f lines kind start o small =
      get_loop-lookup (f.size + 1) key size f lines
        (ap₂ (contents drv ctx d f.start_cluster) (sym start) (omega (arith, start)))
        (omega (arith, length-contents drv ctx d f.start_cluster 0 f.size)) kind o small
