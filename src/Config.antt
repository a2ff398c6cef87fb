-- ===== src/Config.antt =====
-- The configuration files, kernel/src/utils/config.c. `config_get_int` has an empty body: it returns no
-- value, and has no definition here.
pub mod Lookup
pub mod Fields
pub mod Entries
mod Examples
use minios_grub_bootloader.Base.{
  ℕ, zero, suc, ◌+◌, ◌-◌, ◌*◌, ◌/◌, ◌%◌, ◌^◌, ◌≤◌, ◌<◌, min, bit_and, bit_or, ◌≡◌, refl, sym, ap,
  ap₂, ◌∙◌, ◌≢◌, ◌↔◌, ◌⊎◌, inl, inr, Bool, true, false, not, ◌&&◌, ◌||◌, Option, none, some, List,
  [], ◌∷◌, ◌++◌, map, append-nil, append_assoc, arith, ltb, leb, ◌==◌, if◌then◌else◌, Bool-cases,
  Option-cases, u8, u16, u32, ◌<<<◌, ◌>>>◌, length, ℤ, pos, negsuc, get_elem?, get_or, set, take,
  drop, replicate,
}
use minios_grub_bootloader.Disk.{Disk, Driver}
use minios_grub_bootloader.Fat32.Types.{Context, File}
use minios_grub_bootloader.Fat32.File.Line.{Line, fat32_read_line}
use minios_grub_bootloader.Libc.Strings.{CString, until_nul, strcmp, strncpy, strtok}

-- `strtok(buffer, "=")` and `strtok(NULL, "=")`: a NULL key leaves the saved pointer at the end of the
-- buffer, so that the value is NULL, too.
unfoldable pub key_and_value : CString → Option CString × Option CString
key_and_value buffer =
    let (key, saved) = strtok (some buffer) (61 ∷ []) none in (key, (strtok none (61 ∷ []) saved).0)

-- The value of a line that has the key.
unfoldable pub value_of : CString → CString → Option CString
value_of key buffer =
    let (current_key, value) = key_and_value buffer in
    elim current_key [
      | none ↦ none
      | some k ↦ elim value [
        | none ↦ none
        | some v ↦ elim (strcmp k key) [ pos zero ↦ some v | _ ↦ none ]
      ]
    ]

-- What `strncpy` and the last assignment store; `size - 1` wraps at a size of 0.
abbrev pub stored_value : CString → ℕ → List ℕ
stored_value value size = strncpy value (u32 (size + 2 ^ 32 - 1)) ++ (0 ∷ [])

module _ (drv : Driver) (ctx : Context) (d : Disk) where
  -- The loop: `none` is the lack of fuel; the result is the bytes that are stored, if it is true.
  pub get_loop : ℕ → CString → ℕ → File → Option (Option (List ℕ))
  get_loop zero key size file = none
  get_loop (suc fuel) key size file = elim (fat32_read_line drv ctx d file 512) [
    | none ↦ none
    | some line ↦ elim (line.count == 0) [
      | true ↦ some none
      | false ↦ elim (value_of key (until_nul line.out)) [
        | some value ↦ some (some (stored_value value size))
        | none ↦ get_loop fuel key size line.file
      ]
    ]
  ]

  -- A turn reads a byte of the file at least.
  pub config_get_str : File → CString → ℕ → Option (Option (List ℕ))
  config_get_str file key size = get_loop (file.size + 1) key size file
