-- ===== src/Config/Entries.antt =====
-- `config_get_str` on a file of entries, each a line of a key, a sign of equality and a value.
use minios_grub_bootloader.Base.{
  ℕ, ◌+◌, ◌^◌, ◌<◌, ◌≡◌, refl, sym, ap, ◌∙◌, ◌≢◌, inl, inr, true, false, Option, none, some, List,
  [], ◌∷◌, ◌++◌, append_assoc, arith, length, drop, drop-append, length-append,
}
use minios_grub_bootloader.Libc.Strings.{CString, IsText, until_nul}
use minios_grub_bootloader.Fat32.File.Line.{terminated}
use minios_grub_bootloader.Disk.{Disk, Driver, Reads, IsFormatted}
use minios_grub_bootloader.Fat32.Types.{Context, File, IsMounted}
use minios_grub_bootloader.Fat32.File.Contents.{contents}
use minios_grub_bootloader.Fat32.File.Read.Round.{IsOpen}
use minios_grub_bootloader.Config.{config_get_str, value_of}
use minios_grub_bootloader.Config.Lookup.{
  IsLines, no_lines, one_more, first_line, lookup, result, config_get_str-lookup,
}
use minios_grub_bootloader.Config.Fields.{
  Entry, IsEntry, AllEntries, entry_line, entry_line-InLine, copy_line-InLine, until_nul-InLine,
  value_of-line,
}

-- The bytes of the file.
unfoldable pub entries_text : List Entry → List ℕ
entries_text [] = []
entries_text (e ∷ es) = entry_line e ++ (10 ∷ entries_text es)

-- What stands at the first entry of a key: its value with the line feed, or nothing.
pub data IsFirst (key : CString) : List Entry → Option CString → Type 0 where
  nowhere : IsFirst key [] none
  here :
      {e : Entry} {es : List Entry}
      → e.key ≡ key
      → IsFirst key (e ∷ es) (some (e.value ++ (10 ∷ [])))
  later :
      {e : Entry} {es : List Entry} {o : Option CString}
      → e.key ≢ key
      → IsFirst key es o
      → IsFirst key (e ∷ es) o

first_line-entry :
    (e : Entry) (rest : List ℕ)
    → IsEntry e
    → first_line (entry_line e ++ (10 ∷ rest)) ≡ (entry_line e ++ (10 ∷ []), true)
first_line-entry e rest i =
    copy_line-InLine 511 (entry_line e) rest (entry_line-InLine e i)
      (omega (arith, length-append e.key (61 ∷ e.value), i.fits))

terminated-append : (s : List ℕ) → terminated (s ++ (10 ∷ [])) ≡ s ++ (10 ∷ (0 ∷ []))
terminated-append [] = refl
terminated-append (c ∷ s) = ap (λ r. c ∷ r) (append_assoc s (10 ∷ []) (0 ∷ []))

-- The string that `strtok` gets for the line of an entry.
line_string :
    (e : Entry) (rest : List ℕ)
    → IsEntry e
    → until_nul (terminated (first_line (entry_line e ++ (10 ∷ rest))).0)
      ≡ e.key ++ (61 ∷ (e.value ++ (10 ∷ [])))
line_string e rest i =
    ap (λ l. until_nul (terminated l.0)) (first_line-entry e rest i)
    ∙ ap until_nul (terminated-append (entry_line e))
    ∙ until_nul-InLine (entry_line e) (entry_line-InLine e i)
    ∙ append_assoc e.key (61 ∷ e.value) (10 ∷ [])

rest_of_text :
    (e : Entry) (rest : List ℕ)
    → IsEntry e
    → drop (length (first_line (entry_line e ++ (10 ∷ rest))).0) (entry_line e ++ (10 ∷ rest))
      ≡ rest
rest_of_text e rest i =
    ap (λ l. drop (length l.0) (entry_line e ++ (10 ∷ rest))) (first_line-entry e rest i)
    ∙ ap (drop (length (entry_line e ++ (10 ∷ []))))
        (sym (append_assoc (entry_line e) (10 ∷ []) rest))
    ∙ drop-append (length (entry_line e ++ (10 ∷ []))) (entry_line e ++ (10 ∷ [])) rest refl

text_pos : (e : Entry) (es : List Entry) → 0 < length (entries_text (e ∷ es))
unfolding entries_text
text_pos e es = omega (arith, length-append (entry_line e) (10 ∷ entries_text es))

entries_text-IsLines : (es : List Entry) → AllEntries es → IsLines (entries_text es)
unfolding entries_text
entries_text-IsLines [] all = no_lines
entries_text-IsLines (e ∷ es) all =
    one_more (text_pos e es) (ap (λ l. l.1) (first_line-entry e (entries_text es) all.0))
      (rw (rest_of_text e (entries_text es) all.0) (entries_text-IsLines es all.1))

lookup-IsFirst :
    (key : CString) (es : List Entry) {bytes : List ℕ} (lines : IsLines bytes)
    → IsText key
    → AllEntries es
    → bytes ≡ entries_text es
    → IsFirst key es (lookup key lines)
unfolding entries_text lookup
lookup-IsFirst key [] no_lines text all e = nowhere
lookup-IsFirst key (x ∷ es) no_lines text all e = absurd (omega (arith, ap length e, text_pos x es))
lookup-IsFirst key [] (one_more any ends rest) text all e = absurd (omega (arith, ap length e))
lookup-IsFirst key (x ∷ es) (one_more {bytes = bytes} any ends rest) text all e =
    let string =
      ap (λ b. until_nul (terminated (first_line b).0)) e ∙ line_string x (entries_text es) all.0 in
    let left =
      ap (λ b. drop (length (first_line b).0) b) e ∙ rest_of_text x (entries_text es) all.0 in
    elim (value_of-line key x text all.0) [
      | inl (same, found) ↦ rw (lookup, ap (value_of key) string ∙ found) (here same)
      | inr (other, missed) ↦
          rw (lookup, ap (value_of key) string ∙ missed)
            (later other (lookup-IsFirst key es rest text all.1 left))
    ]

module _ {drv : Driver} {ctx : Context} {d : Disk} (reads : Reads drv) (m : IsMounted ctx)
    (formatted : IsFormatted d) where
  -- On a mounted, formatted volume with a driver that reads, for a key without a NUL inside and an
  -- open file at its start, not a directory, whose size and a cluster stay below 2^32, and whose
  -- bytes are entries `key=value` that end in a line feed, have no other line feed, sign of equality
  -- or NUL, a key of one byte at least, and fit a buffer of 512 bytes: `config_get_str` ends; it stores
  -- the value of the first entry of the key, with the line feed behind it, as `strncpy` stores a
  -- string, with a NUL at the end, and returns true, or returns false if no entry has the key.
  pub config_get_str-IsFirst :
      (key : CString) (size : ℕ) (f : File) (es : List Entry)
      → IsText key
      → AllEntries es
      → contents drv ctx d f.start_cluster 0 f.size ≡ entries_text es
      → f.is_dir ≡ false
      → f.file_offset ≡ 0
      → IsOpen drv ctx d f
      → f.size + ctx.cluster_size < 2 ^ 32
      → (value : Option CString) × (config_get_str drv ctx d f key size ≡ some (result value size))
        × IsFirst key es value
  config_get_str-IsFirst key size f es text all bytes kind start o small =
      let lines : IsLines (contents drv ctx d f.start_cluster 0 f.size) =
        rw bytes (entries_text-IsLines es all) in
      (
        lookup key lines,
        config_get_str-lookup reads m formatted key size f lines kind start o small,
        lookup-IsFirst key es lines text all bytes,
      )
