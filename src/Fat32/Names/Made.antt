-- ===== src/Fat32/Names/Made.antt =====
-- The entry that `create_direntry` makes.
use minios_grub_bootloader.Base.{
  ℕ, ◌/◌, ◌^◌, ◌≡◌, refl, true, false, List, [], ◌∷◌, ◌++◌, append_assoc, arith, length, byte_at,
  get_or-append_right, length-append,
}
use minios_grub_bootloader.Libc.Strings.Order.{strcasecmp_refl}
use minios_grub_bootloader.Fat32.Names.Short.{
  entry_name-short, ShortName, length-name_field, name_field_used,
}
use minios_grub_bootloader.Libc.Strings.{CString}
use minios_grub_bootloader.Fat32.Names.{
  entry_size, char_is, attributes, has_name, name_field, new_entry, str_to_upper, bytes16, bytes32,
}

-- What `create_direntry` writes behind the attributes.
abbrev stamps : ℕ → ℕ → ℕ → ℕ → List ℕ
stamps cluster size fat_time fat_date =
    bytes16 fat_time
    ++ (bytes16 fat_date
        ++ (bytes16 fat_date
            ++ (bytes16 (cluster / 2 ^ 16)
                ++ (bytes16 fat_time ++ (bytes16 fat_date ++ (bytes16 cluster ++ bytes32 size))))))

abbrev fields : ℕ → ℕ → ℕ → ℕ → List ℕ
fields cluster size fat_time fat_date = 0 ∷ 0 ∷ stamps cluster size fat_time fat_date

new_entry-fields :
    (name : CString) (attrs cluster size fat_time fat_date : ℕ)
    → new_entry name attrs cluster size fat_time fat_date
      ≡ name_field name ++ (attrs ∷ fields cluster size fat_time fat_date)
unfolding new_entry
new_entry-fields name attrs cluster size fat_time fat_date =
    append_assoc (name_field name) (attrs ∷ 0 ∷ 0 ∷ []) (stamps cluster size fat_time fat_date)

module _ (name : CString) (short : ShortName name) (attrs cluster size fat_time fat_date : ℕ) where
  pub length-new_entry : length (new_entry name attrs cluster size fat_time fat_date) ≡ entry_size
  length-new_entry = rw (new_entry-fields name attrs cluster size fat_time fat_date) (
      omega (
        arith,
        length-append (name_field name) (attrs ∷ fields cluster size fat_time fat_date),
        length-name_field name short,
      ))

  -- The new entry answers to its name in capitals.
  pub has_name-new_entry :
      has_name (new_entry name attrs cluster size fat_time fat_date) (str_to_upper name) ≡ true
  unfolding has_name
  has_name-new_entry = rw (new_entry-fields name attrs cluster size fat_time fat_date) (
      rw
        (
          has_name,
          entry_name-short name (attrs ∷ fields cluster size fat_time fat_date) short,
          strcasecmp_refl (str_to_upper name),
        )
        refl)

  pub attributes-new_entry :
      attributes (new_entry name attrs cluster size fat_time fat_date) ≡ attrs
  attributes-new_entry = rw (new_entry-fields name attrs cluster size fat_time fat_date) (
      get_or-append_right (name_field name) (attrs ∷ fields cluster size fat_time fat_date) 11 0 0
        (omega (arith, length-name_field name short)))

  -- It is no unused entry.
  pub new_entry_used :
      char_is (byte_at (new_entry name attrs cluster size fat_time fat_date) 0) 0 ≡ false
  new_entry_used =
      rw (new_entry-fields name attrs cluster size fat_time fat_date)
        (name_field_used name (attrs ∷ fields cluster size fat_time fat_date) short)
