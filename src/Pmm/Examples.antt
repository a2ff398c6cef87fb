-- ===== src/Pmm/Examples.antt =====
-- The theorems about pmm.c on memory in which no page is taken.
use minios_grub_bootloader.Base.{ℕ, ◌≡◌, refl, Bool, true, false, some, []}
use minios_grub_bootloader.Pmm.{
  find_word, find_bit, fill_entry, pmm_alloc_page, pmm_free_page, pmm_intr_alloc_page, take_page,
  State, DirectoryEntry, Outcome, returned, zero_entry, pmm_init, find_first_page,
}
use minios_grub_bootloader.Pmm.Bitmap.{taken}
use minios_grub_bootloader.Pmm.Alloc.{
  IntrAlloc, pmm_intr_alloc_page-IntrAlloc, IsAllocated, pmm_alloc_page-IsAllocated,
  pmm_free_page-pmm_alloc_page, IsValid, pmm_init_lem,
}

-- The directory has a table for every region, as a page at 3 MiB, or for none.
abbrev directory : Bool → ℕ → DirectoryEntry
directory present i = record {
  present = present;
  read_write = true;
  user_supervisor = true;
  write_through = true;
  cache_disabled = false;
  accessed = false;
  zero_bit = true;
  page_size_bit = false;
  ignored = false;
  available = 0;
  page_table_addr = 0x300;
}

abbrev booted : Bool → State
booted present = pmm_init (record {
  bitmap = [];
  intr_bitmap = [];
  kpage_directory = directory present;
  tables = λ a. zero_entry;
  stray = [];
})

booted-IsValid : (present : Bool) → IsValid (booted present)
booted-IsValid present = (pmm_init_lem _ 0).0

-- The state after an allocation.
abbrev state_of : Outcome → State
state_of (returned page s) = s
state_of o = booted true

abbrev after : Bool → State
after present = state_of (pmm_alloc_page (booted present))

allocates : pmm_alloc_page (booted true) ≡ returned (some 0x800000) (after true)
unfolding pmm_alloc_page find_first_page find_word find_bit take_page fill_entry pmm_init
allocates = refl

pmm_alloc_page-IsAllocated_example : IsAllocated (booted true) (after true) 0x800000
pmm_alloc_page-IsAllocated_example =
    pmm_alloc_page-IsAllocated (booted true) (booted-IsValid true) allocates

pmm_free_page-pmm_alloc_page_example :
    taken (pmm_free_page 0x800000 (after true)).bitmap 0 ≡ taken (booted true).bitmap 0
pmm_free_page-pmm_alloc_page_example =
    pmm_free_page-pmm_alloc_page (booted true) 0 (booted-IsValid true) allocates

pmm_intr_alloc_page-IntrAlloc_example : IntrAlloc (booted true) (pmm_intr_alloc_page (booted true))
pmm_intr_alloc_page-IntrAlloc_example =
    pmm_intr_alloc_page-IntrAlloc (booted true) (booted-IsValid true)
