-- ===== src/Vmm.antt =====
-- Virtual memory, kernel/src/mm/vmm.c, on the state of the page allocator. A directory is the one of
-- the kernel, an array of its own, or a page of memory. The two kinds of entry have their bits at
-- the same places, so that an entry of a directory in memory is a word of the page tables with the
-- names of its fields changed.
pub mod Directories
pub mod Walk
mod Examples
use minios_grub_bootloader.Base.{
  ℕ, zero, suc, ◌+◌, ◌-◌, ◌*◌, ◌/◌, ◌%◌, ◌^◌, ◌≤◌, ◌<◌, min, bit_and, bit_or, ◌≡◌, refl, sym, ap,
  ap₂, ◌∙◌, ◌≢◌, ◌↔◌, ◌⊎◌, inl, inr, Bool, true, false, not, ◌&&◌, ◌||◌, Option, none, some, List,
  [], ◌∷◌, ◌++◌, map, append-nil, append_assoc, arith, ltb, leb, ◌==◌, if◌then◌else◌, Bool-cases,
  Option-cases, u8, u16, u32, ◌<<<◌, ◌>>>◌, length, get_elem?, get_or, set, take, drop, replicate,
}
use minios_grub_bootloader.Pmm.{
  State, DirectoryEntry, TableEntry, page_size, page_directory_index, page_table_index,
  pmm_intr_alloc_page, pmm_free_page, pmm_start_addr, zero_entry, clear_page,
}

pub data Directory : Type 0 where
  kernel : Directory
  user : ℕ → Directory

abbrev pub kernel_stack_size : ℕ
kernel_stack_size = 4096

abbrev pub kernel_stack_base : ℕ
kernel_stack_base = 0x10000000

abbrev pub entries_count : ℕ
entries_count = 1024

-- `PGROUNDDOWN`
abbrev pub page_round_down : ℕ → ℕ
page_round_down a = a / page_size * page_size

-- A word as an entry of a directory, and back.
abbrev pub as_directory : TableEntry → DirectoryEntry
as_directory e = record {
  present = e.present;
  read_write = e.read_write;
  user_supervisor = e.user_supervisor;
  write_through = e.write_through;
  cache_disabled = e.cache_disabled;
  accessed = e.accessed;
  zero_bit = e.dirty;
  page_size_bit = e.zero_bit;
  ignored = e.global;
  available = e.available;
  page_table_addr = e.page_phys_addr;
}

abbrev pub as_word : DirectoryEntry → TableEntry
as_word e = record {
  present = e.present;
  read_write = e.read_write;
  user_supervisor = e.user_supervisor;
  write_through = e.write_through;
  cache_disabled = e.cache_disabled;
  accessed = e.accessed;
  dirty = e.zero_bit;
  zero_bit = e.page_size_bit;
  global = e.ignored;
  available = e.available;
  page_phys_addr = e.page_table_addr;
}

abbrev pub store_entry : ℕ → TableEntry → State → State
store_entry address e s = record s { tables = λ a. if a == address then e else s.tables a }

-- `pgdir[i]`
abbrev pub entry_of : Directory → ℕ → State → DirectoryEntry
entry_of kernel i s = s.kpage_directory i
entry_of (user page) i s = as_directory (s.tables (u32 (page + i * 4)))

abbrev pub set_entry : Directory → ℕ → DirectoryEntry → State → State
set_entry kernel i e s = record s {
  kpage_directory = λ j. if j == i then e else s.kpage_directory j;
}
set_entry (user page) i e s = store_entry (u32 (page + i * 4)) (as_word e) s

-- The table that an entry points to.
abbrev pub table_of : DirectoryEntry → ℕ
table_of e = u32 (e.page_table_addr * 2 ^ 12)

-- An entry of a directory without a table, with the field that the loops leave alone.
abbrev pub blank_entry : Bool → DirectoryEntry → DirectoryEntry
blank_entry for_user e = record e {
  zero_bit = true;
  accessed = false;
  available = 0;
  cache_disabled = false;
  ignored = false;
  page_size_bit = false;
  present = false;
  read_write = true;
  user_supervisor = for_user;
  write_through = true;
}

-- The loops that fill a directory, from entry `i` on.
pub fill_directory : ℕ → ℕ → Directory → Bool → State → State
fill_directory zero i dir for_user s = s
fill_directory (suc left) i dir for_user s =
    fill_directory left (i + 1) dir for_user
      (set_entry dir i (blank_entry for_user (entry_of dir i s)) s)

-- `dir[i].present = 1; dir[i].page_table_addr = table >> 12;`
abbrev pub attach : Directory → ℕ → ℕ → State → State
attach dir i table s =
    set_entry dir i (record (entry_of dir i s) { present = true; page_table_addr = table / 2 ^ 12 })
      s

-- An entry of the first two tables of the kernel.
abbrev pub identity_entry : ℕ → TableEntry
identity_entry address = record {
  present = true;
  read_write = true;
  user_supervisor = true;
  write_through = true;
  cache_disabled = false;
  accessed = false;
  dirty = false;
  zero_bit = false;
  global = true;
  available = 0;
  page_phys_addr = address / 2 ^ 12;
}

-- The loops that fill a table at `table` with the pages from `base` on, from entry `i` on.
pub fill_table : ℕ → ℕ → ℕ → ℕ → State → State
fill_table zero i table base s = s
fill_table (suc left) i table base s =
    fill_table left (i + 1) table base
      (store_entry (u32 (table + i * 4)) (identity_entry (u32 (i * page_size + base))) s)

-- `memset(kpage_directory, 0, …)`
abbrev pub zero_directory : State → State
zero_directory s = record s { kpage_directory = λ i. as_directory zero_entry }

-- `kpage_table1` and `kpage_table2` are the addresses that the linker gives the two tables. The control
-- registers are not part of the state.
pub vmm_init : ℕ → ℕ → State → State
vmm_init kpage_table1 kpage_table2 s =
    let s1 = fill_directory entries_count 0 kernel true (zero_directory s) in
    let s2 = attach kernel 1 kpage_table2 (attach kernel 0 kpage_table1 s1) in
    fill_table entries_count 0 kpage_table2 0x400000 (fill_table entries_count 0 kpage_table1 0 s2)

-- NULL is `none`.
pub vmm_create_user_page_directory : ℕ → ℕ → State → Option ℕ × State
vmm_create_user_page_directory kpage_table1 kpage_table2 s =
    let (page, s1) = pmm_intr_alloc_page s in
    elim page [
      | none ↦ (none, s1)
      | some pgdir ↦
          let dir = user pgdir in
          (
            some pgdir,
            attach dir 1 kpage_table2
                (attach dir 0 kpage_table1 (fill_directory entries_count 0 dir false s1)),
          )
    ]

-- The inner loop of `vmm_destroy_user_page_directory`, from entry `j` on.
pub free_pages : ℕ → ℕ → ℕ → State → State
free_pages zero j table s = s
free_pages (suc left) j table s =
    let e = s.tables (u32 (table + j * 4)) in
    let pa = u32 (e.page_phys_addr * 2 ^ 12) in
    free_pages left (j + 1) table
      (if e.present then (if ltb pa pmm_start_addr then s else pmm_free_page pa s) else s)

-- The outer loop, from entry `i` on.
pub free_tables : ℕ → ℕ → Directory → State → State
free_tables zero i dir s = s
free_tables (suc left) i dir s =
    let e = entry_of dir i s in
    free_tables left (i + 1) dir
      (if e.present then free_pages entries_count 0 (table_of e) s else s)

pub vmm_destroy_user_page_directory : ℕ → State → State
vmm_destroy_user_page_directory pgdir s =
    pmm_free_page pgdir (free_tables entries_count 0 (user pgdir) s)

pub vmm_va2pa : Directory → ℕ → State → Option ℕ
vmm_va2pa dir va s =
    let d = entry_of dir (page_directory_index va) s in
    let e = s.tables (u32 (table_of d + page_table_index va * 4)) in
    if not d.present
    then none
    else if not e.present
    then none
    else some (bit_or (u32 (e.page_phys_addr * 2 ^ 12)) (va % 2 ^ 12))

-- The address of the entry of a page, after a table is made for it where there is none.
pub vmm_walk_pgdir : Directory → ℕ → State → Option ℕ × State
vmm_walk_pgdir dir va s =
    let pd = page_directory_index va in
    let pt = page_table_index va in
    let d = entry_of dir pd s in
    let (page, s1) = pmm_intr_alloc_page s in
    elim d.present [
      | true ↦ (some (u32 (table_of d + pt * 4)), s)
      | false ↦ elim page [
        | none ↦ (none, s1)
        | some table ↦ (
          some (u32 (table + pt * 4)),
          attach dir pd table (record s1 { tables = clear_page table s1.tables }),
        )
      ]
    ]

-- What `vmm_mappage` writes into the entry of a page.
abbrev pub mapped_entry : Bool → Bool → Bool → ℕ → TableEntry
mapped_entry pte_p pte_w pte_u pa_page = record {
  present = pte_p;
  read_write = pte_w;
  user_supervisor = pte_u;
  write_through = true;
  cache_disabled = false;
  accessed = false;
  dirty = false;
  zero_bit = false;
  global = true;
  available = 0;
  page_phys_addr = pa_page / 2 ^ 12;
}

module _ (dir : Directory) (va pa : ℕ) (pte_p pte_w pte_u : Bool) where
  -- The loop of `vmm_mappage` from page `a` on: whether a page could not be mapped, and the state.
  -- `none` is a loop that has used up its turns.
  pub map_loop : ℕ → ℕ → ℕ → State → Option (Bool × State)
  map_loop zero a last s = none
  map_loop (suc turns) a last s =
      let (ptable, s1) = vmm_walk_pgdir dir a s in
      elim (leb a last) [
        | false ↦ some (false, s)
        | true ↦ elim ptable [
          | none ↦ some (true, s1)
          | some address ↦
              let pa_page = u32 (pa + (a - page_round_down va)) in
              map_loop turns (u32 (a + page_size)) last
                (store_entry address (mapped_entry pte_p pte_w pte_u pa_page) s1)
        ]
      ]

  -- `true` for -1. A range that ends in the last page of the address space is never finished, since
  -- `a` comes back to 0; any other one takes one turn for each page.
  pub vmm_mappage : ℕ → State → Option (Bool × State)
  vmm_mappage size s =
      map_loop (2 ^ 20 + 1) (page_round_down va) (page_round_down (u32 (va + size + 2 ^ 32 - 1))) s

-- The result of `vmm_mappage` is not looked at, and `lcr3` is left out.
pub vmm_switch_kernel_page_directory : ℕ → State → Option State
vmm_switch_kernel_page_directory kstack s =
    elim (vmm_mappage kernel kernel_stack_base kstack true true true kernel_stack_size s) [
      | none ↦ none
      | some (failed, s') ↦ some s'
    ]
