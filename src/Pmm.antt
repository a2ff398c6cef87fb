-- ===== src/Pmm.antt =====
-- The physical page allocator, kernel/src/mm/pmm.c with kernel/include/mm/pmm.h. A bitmap is an
-- array of 32-bit words, and -1 is `none`. `kpage_directory` and the page tables in memory are part
-- of the state, an entry of a table by its address. `kpanic` does not return.
pub mod Bitmap
pub mod Alloc
mod Examples
use minios_grub_bootloader.Base.{
  ℕ, zero, suc, ◌+◌, ◌-◌, ◌*◌, ◌/◌, ◌%◌, ◌^◌, ◌≤◌, ◌<◌, min, bit_and, bit_or, ◌≡◌, refl, sym, ap,
  ap₂, ◌∙◌, ◌≢◌, ◌↔◌, ◌⊎◌, inl, inr, Bool, true, false, not, ◌&&◌, ◌||◌, Option, none, some, List,
  [], ◌∷◌, ◌++◌, map, append-nil, append_assoc, arith, ltb, leb, ◌==◌, if◌then◌else◌, Bool-cases,
  Option-cases, u8, u16, u32, ◌<<<◌, ◌>>>◌, length, get_elem?, get_or, set, take, drop, replicate,
  bit_of,
}

abbrev pub page_size : ℕ
page_size = 4096

abbrev pub pmm_intr_start_addr : ℕ
pmm_intr_start_addr = 0x400000

abbrev pub pmm_intr_end_addr : ℕ
pmm_intr_end_addr = 0x7FFFFF

abbrev pub pmm_start_addr : ℕ
pmm_start_addr = 0x800000

abbrev pub pmm_end_addr : ℕ
pmm_end_addr = 0xFFFFFFFF

-- PAGES_COUNT
abbrev pub pages_count : ℕ
pages_count = (pmm_end_addr - pmm_start_addr) / page_size

-- PMM_INTR_PAGES_COUNT
abbrev pub intr_pages_count : ℕ
intr_pages_count = (pmm_intr_end_addr - pmm_intr_start_addr) / page_size

-- The inner loop of `find_first_page`, from bit `j` on.
pub find_bit : ℕ → ℕ → ℕ → Option ℕ
find_bit zero j word = none
find_bit (suc left) j word =
    let rest = find_bit left (j + 1) word in if bit_and (word / 2 ^ j) 1 == 0 then some j else rest

-- The outer loop, from word `i` on.
pub find_word : ℕ → ℕ → List ℕ → Option ℕ
unfolding find_bit
find_word zero i bitmap = none
find_word (suc left) i bitmap =
    let rest = find_word left (i + 1) bitmap in
    let word = get_or bitmap i 0 in
    elim (word == 0xFFFFFFFF) [
      | true ↦ rest
      | false ↦ elim (find_bit 32 0 word) [ none ↦ rest | some j ↦ some (i * 32 + j) ]
    ]

pub find_first_page : List ℕ → ℕ → Option ℕ
unfolding find_word
find_first_page bitmap count = find_word (count / 32) 0 bitmap

-- `bitmap[index] |= 1U << offset`
pub bitmap_set : List ℕ → ℕ → List ℕ
bitmap_set bitmap page_index =
    set bitmap (page_index / 32)
      (bit_or (get_or bitmap (page_index / 32) 0) (2 ^ (page_index % 32)))

-- `bitmap[index] &= ~(1U << offset)`
pub bitmap_clear : List ℕ → ℕ → List ℕ
bitmap_clear bitmap page_index =
    set bitmap (page_index / 32)
      (bit_and (get_or bitmap (page_index / 32) 0) (2 ^ 32 - 1 - 2 ^ (page_index % 32)))

-- `page_directory_t`
pub record DirectoryEntry : Type 0 where
  pub present : Bool
  pub read_write : Bool
  pub user_supervisor : Bool
  pub write_through : Bool
  pub cache_disabled : Bool
  pub accessed : Bool
  pub zero_bit : Bool
  pub page_size_bit : Bool
  pub ignored : Bool
  pub available : ℕ
  pub page_table_addr : ℕ

-- `page_table_t`
pub record TableEntry : Type 0 where
  pub present : Bool
  pub read_write : Bool
  pub user_supervisor : Bool
  pub write_through : Bool
  pub cache_disabled : Bool
  pub accessed : Bool
  pub dirty : Bool
  pub zero_bit : Bool
  pub global : Bool
  pub available : ℕ
  pub page_phys_addr : ℕ

abbrev pub zero_entry : TableEntry
zero_entry = record {
  present = false;
  read_write = false;
  user_supervisor = false;
  write_through = false;
  cache_disabled = false;
  accessed = false;
  dirty = false;
  zero_bit = false;
  global = false;
  available = 0;
  page_phys_addr = 0;
}

-- `stray` has the words past the end of a bitmap that a call has changed, the last one first: memory
-- of which the model knows nothing.
pub record State : Type 0 where
  pub bitmap : List ℕ
  pub intr_bitmap : List ℕ
  pub kpage_directory : ℕ → DirectoryEntry
  pub tables : ℕ → TableEntry
  pub stray : List ℕ

-- The change of one word of a bitmap, which may lie past its end.
abbrev pub past_end : List ℕ → ℕ → List ℕ → List ℕ
past_end bitmap page_index stray =
    if ltb (page_index / 32) (length bitmap) then stray else page_index / 32 ∷ stray

-- `memset(bitmap, 0, sizeof(bitmap))`
pub pmm_init : State → State
pmm_init s = record s {
  bitmap = replicate (pages_count / 32) 0;
  intr_bitmap = replicate (intr_pages_count / 32) 0;
}

-- `memset(page, 0, PAGE_SIZE)`, seen as table entries.
abbrev pub clear_page : ℕ → (ℕ → TableEntry) → ℕ → TableEntry
clear_page page t a = if leb page a && ltb a (page + page_size) then zero_entry else t a

-- NULL is `none`.
unfoldable pub pmm_intr_alloc_page : State → Option ℕ × State
pmm_intr_alloc_page s = elim (find_first_page s.intr_bitmap intr_pages_count) [
  | none ↦ (none, s)
  | some index ↦
      let addr = u32 (index * page_size + pmm_intr_start_addr) in
      (
        some addr,
        record s {
          intr_bitmap = bitmap_set s.intr_bitmap index;
          tables = clear_page addr s.tables;
        },
      )
]

pub pmm_intr_free_page : ℕ → State → State
pmm_intr_free_page page_addr s =
    let page_index = (page_addr - pmm_intr_start_addr) / page_size in
    if ltb page_addr pmm_intr_start_addr
    then s
    else if leb pages_count page_index
    then s
    else record s {
      intr_bitmap = bitmap_clear s.intr_bitmap page_index;
      stray = past_end s.intr_bitmap page_index s.stray;
    }

abbrev pub page_directory_index : ℕ → ℕ
page_directory_index va = va / 2 ^ 22 % 1024

abbrev pub page_table_index : ℕ → ℕ
page_table_index va = va / 2 ^ 12 % 1024

-- What `pmm_alloc_page` writes into the table.
abbrev pub kernel_entry : ℕ → TableEntry
kernel_entry page_addr = record {
  present = true;
  read_write = true;
  user_supervisor = false;
  write_through = true;
  cache_disabled = false;
  accessed = false;
  dirty = false;
  zero_bit = false;
  global = true;
  available = 0;
  page_phys_addr = page_addr / 2 ^ 12;
}

-- The two panics, the page fault of the last `memset`, or a return.
pub data Outcome : Type 0 where
  failed_allocate_page_table : Outcome
  page_already_allocated : Outcome
  page_fault : Outcome
  returned : Option ℕ → State → Outcome

-- The rest of `pmm_alloc_page`, with `ptable` the address of the entry that it fills.
pub fill_entry : ℕ → ℕ → State → Outcome
fill_entry page_addr ptable s =
    if (s.tables ptable).present
    then page_already_allocated
    else returned (some page_addr) (record s {
      tables =
          clear_page page_addr (λ a. if a == ptable then kernel_entry page_addr else s.tables a);
    })

-- With a new table its first entry is filled: the page itself is mapped only if the entry is its own,
-- and otherwise clearing it faults.
pub fill_first : ℕ → ℕ → ℕ → State → Outcome
fill_first page_addr pt ptable s =
    let filled = fill_entry page_addr ptable s in if pt == 0 then filled else page_fault

-- `pmm_alloc_page` from the point where page `index` has been found.
pub take_page : ℕ → State → Outcome
take_page index s =
    let s1 = record s { bitmap = bitmap_set s.bitmap index } in
    let page_addr = u32 (index * page_size + pmm_start_addr) in
    let pd = page_directory_index page_addr in
    let pt = page_table_index page_addr in
    let dir = s.kpage_directory pd in
    let (table, s2) = pmm_intr_alloc_page s1 in
    elim dir.present [
      | true ↦ fill_entry page_addr (u32 (dir.page_table_addr * 2 ^ 12 + pt * 4)) s1
      | false ↦ elim table [
        | none ↦ failed_allocate_page_table
        | some ptable ↦ fill_first page_addr pt ptable (record s2 {
          kpage_directory = λ i.
              if i == pd
              then record (s2.kpage_directory i) {
                present = true;
                page_table_addr = ptable / 2 ^ 12;
              }
              else s2.kpage_directory i;
        })
      ]
    ]

pub pmm_alloc_page : State → Outcome
pmm_alloc_page s = elim (find_first_page s.bitmap pages_count) [
  | none ↦ returned none s
  | some index ↦ take_page index s
]

unfoldable pub pmm_free_page : ℕ → State → State
pmm_free_page page_addr s =
    let page_index = (page_addr - pmm_start_addr) / page_size in
    if ltb page_addr pmm_start_addr then s else if leb pages_count page_index then s else record s {
      bitmap = bitmap_clear s.bitmap page_index;
      stray = past_end s.bitmap page_index s.stray;
    }
