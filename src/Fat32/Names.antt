-- ===== src/Fat32/Names.antt =====
-- Directory entries and their names in fat32.c: `str_to_upper`, the 8.3 names of `create_direntry`,
-- and the entry_name of `fat32_find_file` and `fat32_update_file_entry`. An entry is its 32 bytes.
pub mod Padded
pub mod Short
pub mod Made
use minios_grub_bootloader.Base.{
  negsuc, pos, ℕ, zero, suc, ◌+◌, ◌-◌, ◌*◌, ◌/◌, ◌%◌, ◌^◌, ◌≤◌, ◌<◌, min, bit_and, bit_or, ◌≡◌,
  refl, sym, ap, ap₂, ◌∙◌, ◌≢◌, ◌↔◌, ◌⊎◌, inl, inr, Bool, true, false, not, ◌&&◌, ◌||◌, Option,
  none, some, List, [], ◌∷◌, ◌++◌, map, append-nil, append_assoc, arith, ltb, leb, ◌==◌,
  if◌then◌else◌, Bool-cases, Option-cases, u8, u16, u32, ◌<<<◌, ◌>>>◌, length, get_elem?, get_or,
  set, take, drop, replicate, byte_at, le16, le32,
}
use minios_grub_bootloader.Libc.Ctype.{toupper}
use minios_grub_bootloader.Libc.Memory.{memcmp}
use minios_grub_bootloader.Libc.Strings.{CString, until_nul, strlen, strchr, strcasecmp}

-- `sizeof(fat32_dir_entry_t)`
abbrev pub entry_size : ℕ
entry_size = 32

abbrev pub DirEntry : Type 0
DirEntry = List ℕ

-- A `char` of the target is signed: a byte above 127 is a negative number, and equal to no constant
-- of the sources.
abbrev pub char_is : ℕ → ℕ → Bool
char_is c constant = c == constant && ltb c 128

abbrev pub attributes : DirEntry → ℕ
attributes e = byte_at e 11

-- `(entry.first_cluster_high << 16) | entry.first_cluster_low`
abbrev pub first_cluster : DirEntry → ℕ
first_cluster e = bit_or (le16 e 20 * 2 ^ 16) (le16 e 26)

abbrev pub file_size : DirEntry → ℕ
file_size e = le32 e 28

pub str_to_upper : CString → CString
str_to_upper [] = []
str_to_upper (c ∷ str) = toupper c ∷ str_to_upper str

-- The bytes in front of the first space.
pub until_space : List ℕ → List ℕ
until_space [] = []
until_space (c ∷ l) = let rest = until_space l in if char_is c 32 then [] else c ∷ rest

-- The loops that fill `entry_name`.
pub entry_name : DirEntry → CString
entry_name e =
    let base = until_space (take 8 e) in
    let extension = until_space (take 3 (drop 8 e)) in
    until_nul (if char_is (byte_at e 8) 32 then base else base ++ (46 ∷ extension))

-- `n` places of a name: at most `n` characters in capitals, and spaces.
pub padded : ℕ → CString → List ℕ
padded n str =
    let used = min n (strlen str) in str_to_upper (take used str) ++ replicate (n - used) 32

-- The eleven bytes of `de->name` that `create_direntry` writes.
pub name_field : CString → List ℕ
name_field name = elim (strchr name 46) [
  | none ↦ padded 8 name ++ replicate 3 32
  | some dot ↦ padded 8 (take (strlen name - strlen dot) name) ++ padded 3 (drop 1 dot)
]

abbrev pub bytes16 : ℕ → List ℕ
bytes16 v = v % 2 ^ 8 ∷ v / 2 ^ 8 % 2 ^ 8 ∷ []

abbrev pub bytes32 : ℕ → List ℕ
bytes32 v = bytes16 v ++ bytes16 (v / 2 ^ 16)

-- The entry that `create_direntry` fills, field by field.
pub new_entry : CString → ℕ → ℕ → ℕ → ℕ → ℕ → DirEntry
new_entry name attrs cluster size fat_time fat_date =
    name_field name
    ++ (attrs ∷ 0 ∷ 0 ∷ [])
    ++ (bytes16 fat_time
        ++ (bytes16 fat_date
            ++ (bytes16 fat_date
                ++ (bytes16 (cluster / 2 ^ 16)
                    ++ (bytes16 fat_time
                        ++ (bytes16 fat_date ++ (bytes16 cluster ++ bytes32 size)))))))

-- `memcmp(a.name, b.name, 11) == 0`
pub same_name_bytes : DirEntry → DirEntry → Bool
same_name_bytes a b =
    elim (memcmp 0 16 11 (λ p. if ltb p 16 then byte_at a p else byte_at b (p - 16))) [
      | pos zero ↦ true
      | pos (suc n) ↦ false
      | negsuc n ↦ false
    ]

-- `strcasecmp(entry_name, name) == 0`
pub has_name : DirEntry → CString → Bool
has_name e name = elim (strcasecmp (entry_name e) name) [
  | pos zero ↦ true
  | pos (suc n) ↦ false
  | negsuc n ↦ false
]
