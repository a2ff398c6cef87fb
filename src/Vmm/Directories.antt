-- ===== src/Vmm/Directories.antt =====
-- The directory of the kernel after `vmm_init`, and what is left of a directory that is destroyed.
use minios_grub_bootloader.Base.{
  ℕ, zero, suc, ◌+◌, ◌*◌, ◌/◌, ◌%◌, ◌^◌, ◌≤◌, ◌<◌, ◌≡◌, refl, ap, ◌∙◌, ◌≢◌, ◌⊎◌, inl, inr, Bool,
  true, false, none, some, arith, ltb, ◌==◌, if◌then◌else◌, Bool-cases, u32, test_of_ne,
  bit_or_fields, test_of_eq, eq_of_test, ne_of_test,
}
use minios_grub_bootloader.Vmm.{
  vmm_init, attach, zero_directory, vmm_va2pa, Directory, kernel, user, entries_count, table_of,
  entry_of, fill_directory, identity_entry, fill_table, free_pages, free_tables,
  vmm_destroy_user_page_directory,
}
use minios_grub_bootloader.Pmm.{
  page_table_index, page_directory_index, State, page_size, pmm_free_page, pmm_start_addr,
}

pmm_free_page-intr : (page : ℕ) (s : State) → (pmm_free_page page s).intr_bitmap ≡ s.intr_bitmap
unfolding pmm_free_page
pmm_free_page-intr page s = ground arith

if-intr :
    (b : Bool) (t e s : State)
    → t.intr_bitmap ≡ s.intr_bitmap
    → e.intr_bitmap ≡ s.intr_bitmap
    → (if b then t else e).intr_bitmap ≡ s.intr_bitmap
if-intr true t e s p q = p
if-intr false t e s p q = q

free_pages-intr :
    (left j table : ℕ) (s : State) → (free_pages left j table s).intr_bitmap ≡ s.intr_bitmap
unfolding free_pages
free_pages-intr zero j table s = refl
free_pages-intr (suc left) j table s =
    let e = s.tables (u32 (table + j * 4)) in
    let pa = u32 (e.page_phys_addr * 2 ^ 12) in
    let freed = if ltb pa pmm_start_addr then s else pmm_free_page pa s in
    free_pages-intr left (j + 1) table (if e.present then freed else s)
    ∙ if-intr e.present freed s s
        (if-intr (ltb pa pmm_start_addr) s (pmm_free_page pa s) s refl (pmm_free_page-intr pa s))
        refl

free_tables-intr :
    (left i : ℕ) (dir : Directory) (s : State)
    → (free_tables left i dir s).intr_bitmap ≡ s.intr_bitmap
unfolding free_tables
free_tables-intr zero i dir s = refl
free_tables-intr (suc left) i dir s =
    let e = entry_of dir i s in
    let freed = free_pages entries_count 0 (table_of e) s in
    free_tables-intr left (i + 1) dir (if e.present then freed else s)
    ∙ if-intr e.present freed s s (free_pages-intr entries_count 0 (table_of e) s) refl

pub free_tables-absent :
    (left i : ℕ) (dir : Directory) (s : State)
    → ((k : ℕ) → (entry_of dir k s).present ≡ false)
    → free_tables left i dir s ≡ s
unfolding free_tables
free_tables-absent zero i dir s absent = refl
free_tables-absent (suc left) i dir s absent =
    rw (absent i) (free_tables-absent left (i + 1) dir s absent)

-- Destroying a directory, when all the bits that it clears are those of the pages of the bitmap, gives
-- no page back to the pool that directories and their tables are taken from.
pub vmm_destroy_keeps_pool :
    (pgdir : ℕ) (s : State)
    → (vmm_destroy_user_page_directory pgdir s).stray ≡ s.stray
    → (vmm_destroy_user_page_directory pgdir s).intr_bitmap ≡ s.intr_bitmap
unfolding vmm_destroy_user_page_directory
vmm_destroy_keeps_pool pgdir s inside =
    pmm_free_page-intr pgdir (free_tables entries_count 0 (user pgdir) s)
    ∙ free_tables-intr entries_count 0 (user pgdir) s

fill_table-directory :
    (left i table base : ℕ) (s : State)
    → (fill_table left i table base s).kpage_directory ≡ s.kpage_directory
unfolding fill_table
fill_table-directory zero i table base s = refl
fill_table-directory (suc left) i table base s = fill_table-directory left (i + 1) table base _

-- An address outside of the entries that are filled.
fill_table_outside :
    (left i table base a : ℕ) (s : State)
    → table + (i + left) * 4 ≤ 2 ^ 32
    → (a < table + i * 4) ⊎ (table + (i + left) * 4 ≤ a)
    → (fill_table left i table base s).tables a ≡ s.tables a
unfolding fill_table
fill_table_outside zero i table base a s fits outside = refl
fill_table_outside (suc left) i table base a s fits outside =
    let other : (a == u32 (table + i * 4)) ≡ false = ground arith in
    fill_table_outside left (i + 1) table base a _ (omega arith) (ground arith) ∙ rw other refl

fill_table_inside :
    (left i table base k : ℕ) (s : State)
    → table + (i + left) * 4 ≤ 2 ^ 32
    → i ≤ k
    → k < i + left
    → (fill_table left i table base s).tables (table + k * 4)
      ≡ identity_entry (u32 (k * page_size + base))
unfolding fill_table
fill_table_inside zero i table base k s fits above below = absurd (omega arith)
fill_table_inside (suc left) i table base k s fits above below = elim (Bool-cases (k == i)) [
  | inr later ↦
      fill_table_inside left (i + 1) table base k _ (omega arith)
        (omega (arith, ne_of_test k i later)) (omega arith)
  | inl here ↦
      let at : k ≡ i = eq_of_test k i here in
      let hit : (table + k * 4 == u32 (table + i * 4)) ≡ true =
        test_of_eq (table + k * 4) (u32 (table + i * 4)) (omega arith) in
      fill_table_outside left (i + 1) table base (table + k * 4) _ (omega arith) (inl (omega arith))
      ∙ rw (hit, at) refl
]

fill_directory-absent :
    (left i k : ℕ) (for_user : Bool) (s : State)
    → (s.kpage_directory k).present ≡ false
    → ((fill_directory left i kernel for_user s).kpage_directory k).present ≡ false
unfolding fill_directory
fill_directory-absent zero i k for_user s e = e
fill_directory-absent (suc left) i k for_user s e =
    fill_directory-absent left (i + 1) k for_user _
      (elim (Bool-cases (k == i)) [ inl here ↦ rw here refl | inr other ↦ rw other e ])

untranslated :
    (va : ℕ) (s : State)
    → (s.kpage_directory (page_directory_index va)).present ≡ false
    → vmm_va2pa kernel va s ≡ none
unfolding vmm_va2pa
untranslated va s absent = rw (vmm_va2pa, absent) refl

translated :
    (va table q : ℕ) (s : State)
    → (s.kpage_directory (page_directory_index va)).present ≡ true
    → table_of (s.kpage_directory (page_directory_index va)) ≡ table
    → table + page_size ≤ 2 ^ 32
    → s.tables (table + page_table_index va * 4) ≡ identity_entry (q * page_size)
    → q < 2 ^ 20
    → vmm_va2pa kernel va s ≡ some (q * page_size + va % page_size)
unfolding vmm_va2pa
translated va table q s present at fits entry few =
    let address : u32 (table + page_table_index va * 4) ≡ table + page_table_index va * 4 =
      omega arith in
    let page : u32 (q * page_size / 2 ^ 12 * 2 ^ 12) ≡ q * 2 ^ 12 = omega arith in
    rw (vmm_va2pa, present, at, address, entry, page)
      (ap some (bit_or_fields 12 q (va % 2 ^ 12) (omega arith)))

module _ (table1 table2 : ℕ) (whole1 : table1 % page_size ≡ 0) (whole2 : table2 % page_size ≡ 0)
    (low1 : table1 < 2 ^ 32) (low2 : table2 < 2 ^ 32) (apart : table1 ≢ table2) where
  -- The directory, before the tables are filled.
  abbrev attached : State → State
  attached s =
      attach kernel 1 table2
        (attach kernel 0 table1 (fill_directory entries_count 0 kernel true (zero_directory s)))

  vmm_init-directory :
      (s : State) → (vmm_init table1 table2 s).kpage_directory ≡ (attached s).kpage_directory
  unfolding vmm_init
  vmm_init-directory s =
      fill_table-directory entries_count 0 table2 0x400000 _
      ∙ fill_table-directory entries_count 0 table1 0 (attached s)

  vmm_init-table1 :
      (k : ℕ) (s : State)
      → k < 1024
      → (vmm_init table1 table2 s).tables (table1 + k * 4) ≡ identity_entry (k * page_size)
  unfolding vmm_init
  vmm_init-table1 k s h =
      let at : u32 (k * page_size + 0) ≡ k * page_size = omega arith in
      fill_table_outside entries_count 0 table2 0x400000 (table1 + k * 4) _ (omega arith)
        (grind arith)
      ∙ fill_table_inside entries_count 0 table1 0 k (attached s) (omega arith) (omega arith) h
      ∙ ap identity_entry at

  vmm_init-table2 :
      (k : ℕ) (s : State)
      → k < 1024
      → (vmm_init table1 table2 s).tables (table2 + k * 4)
        ≡ identity_entry (k * page_size + 0x400000)
  unfolding vmm_init
  vmm_init-table2 k s h =
      let at : u32 (k * page_size + 0x400000) ≡ k * page_size + 0x400000 = omega arith in
      fill_table_inside entries_count 0 table2 0x400000 k _ (omega arith) (omega arith) h
      ∙ ap identity_entry at

  attached-absent : (k : ℕ) (s : State) → 1 < k → ((attached s).kpage_directory k).present ≡ false
  attached-absent k s h =
      let first : (k == 0) ≡ false = test_of_ne k 0 (omega arith) in
      let second : (k == 1) ≡ false = test_of_ne k 1 (omega arith) in
      rw (second, first) (fill_directory-absent entries_count 0 k true (zero_directory s) refl)

  -- With the two tables at different whole pages of the 32-bit address space: after `vmm_init` the kernel sees the
  -- first 8 MiB of memory at their own addresses, and nothing else of the address space.
  pub vmm_va2pa-vmm_init :
      (va : ℕ) (s : State)
      → va < 2 ^ 32
      → vmm_va2pa kernel va (vmm_init table1 table2 s) ≡ (if ltb va 0x800000 then some va else none)
  vmm_va2pa-vmm_init va s low = elim (Bool-cases (ltb va 0x400000)) [
    | inl first ↦
        let pd : page_directory_index va ≡ 0 = ground arith in
        let inside : ltb va 0x800000 ≡ true = ground arith in
        let q : va / page_size * page_size + va % page_size ≡ va = omega arith in
        let pt : page_table_index va ≡ va / page_size = ground arith in
        rw inside (
          translated va table1 (va / page_size) (vmm_init table1 table2 s)
            (rw (pd, vmm_init-directory s) refl) (rw (pd, vmm_init-directory s) (omega arith))
            (omega arith) (rw pt (vmm_init-table1 (va / page_size) s (ground arith))) (omega arith)
          ∙ ap some q)
    | inr beyond ↦ elim (Bool-cases (ltb va 0x800000)) [
      | inl second ↦
          let pd : page_directory_index va ≡ 1 = ground arith in
          let k = page_table_index va in
          let page : k * page_size + 0x400000 ≡ va / page_size * page_size = ground arith in
          let q : va / page_size * page_size + va % page_size ≡ va = omega arith in
          rw second (
            translated va table2 (va / page_size) (vmm_init table1 table2 s)
              (rw (pd, vmm_init-directory s) refl) (rw (pd, vmm_init-directory s) (omega arith))
              (omega arith) (vmm_init-table2 k s (omega arith) ∙ ap identity_entry page)
              (omega arith)
            ∙ ap some q)
      | inr far ↦ rw far (
          untranslated va (vmm_init table1 table2 s) (
            rw (vmm_init-directory s) (attached-absent (page_directory_index va) s (ground arith))))
    ]
  ]
