-- ===== src/Fat32/File/Line.antt =====
-- `fat32_read_line` of fat32.c. `none` is the lack of fuel, as in the loops that it calls.
pub mod Copied
pub mod Prefix
pub mod Back
pub mod Turn
pub mod First
use minios_grub_bootloader.Base.{
  ℕ, zero, suc, ◌+◌, ◌-◌, ◌*◌, ◌/◌, ◌%◌, ◌^◌, ◌≤◌, ◌<◌, min, bit_and, bit_or, ◌≡◌, refl, sym, ap,
  ap₂, ◌∙◌, ◌≢◌, ◌↔◌, ◌⊎◌, inl, inr, Bool, true, false, not, ◌&&◌, ◌||◌, Option, none, some, List,
  [], ◌∷◌, ◌++◌, map, append-nil, append_assoc, arith, ltb, leb, ◌==◌, if◌then◌else◌, Bool-cases,
  Option-cases, u8, u16, u32, ◌<<<◌, ◌>>>◌, length, get_elem?, get_or, set, take, drop, replicate,
}
use minios_grub_bootloader.Disk.{Disk, Driver}
use minios_grub_bootloader.Fat32.Types.{Context, File}
use minios_grub_bootloader.Fat32.File.{Got, fat32_read, fat32_seek}

-- What a call leaves: the count that it returns, the bytes that it has put into the buffer, with the
-- NUL at their end, and the file.
pub record Line : Type 0 where
  pub count : ℕ
  pub out : List ℕ
  pub file : File

-- The inner loop with the room that is left: the bytes that it copies, and whether the last of them is
-- the end of the line.
unfoldable pub copy_line : ℕ → List ℕ → List ℕ × Bool
copy_line zero buf = ([], false)
copy_line (suc room) [] = ([], false)
copy_line (suc room) (c ∷ buf) =
    let rest = copy_line room buf in if c == 10 then (c ∷ [], true) else (c ∷ rest.0, rest.1)

-- `out[pos] = '\0'`, which an empty line does not get.
abbrev pub terminated : List ℕ → List ℕ
terminated [] = []
terminated (c ∷ out) = (c ∷ out) ++ (0 ∷ [])

abbrev pub stop : List ℕ → File → Option Line
stop out file = some (record { count = length out; out = terminated out; file = file })

module _ (drv : Driver) (ctx : Context) (d : Disk) where
  -- The end of a line: the file goes back to the byte behind it. The result of `fat32_seek` is not
  -- looked at.
  pub seek_back : ℕ → List ℕ → File → Option Line
  seek_back file_offset_before out file =
      elim (fat32_seek drv ctx d file (u32 (file_offset_before + length out))) [
        | none ↦ none
        | some (done, file') ↦ stop out file'
      ]

  -- The outer loop with `size - 1`, the bytes so far and the file.
  pub line_loop : ℕ → ℕ → ℕ → List ℕ → File → Option Line
  line_loop zero limit before out file = none
  line_loop (suc fuel) limit before out file = elim (leb limit (length out)) [
    | true ↦ stop out file
    | false ↦ elim (fat32_read drv ctx d file 512) [
      | none ↦ none
      | some got ↦ elim (got.count == 0) [
        | true ↦ stop out got.file
        | false ↦
            let (copied, ended) = copy_line (limit - length out) (take got.count got.out) in
            elim ended [
              | true ↦ seek_back before (out ++ copied) got.file
              | false ↦ line_loop fuel limit before (out ++ copied) got.file
            ]
      ]
    ]
  ]

  -- A turn stores a byte at least, which bounds the turns.
  pub fat32_read_line : File → ℕ → Option Line
  fat32_read_line file size =
      let limit = u32 (size + 2 ^ 32 - 1) in
      if file.is_dir
      then some (record { count = 0; out = []; file = file })
      else line_loop (limit + 1) limit file.file_offset [] file
