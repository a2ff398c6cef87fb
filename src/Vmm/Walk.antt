-- ===== src/Vmm/Walk.antt =====
-- When `vmm_mappage` ends, and what `vmm_va2pa` answers after it.
use minios_grub_bootloader.Base.{
  ℕ, zero, suc, ◌+◌, ◌-◌, ◌*◌, ◌/◌, ◌%◌, ◌^◌, ◌≤◌, ◌<◌, bit_or, ◌≡◌, refl, sym, ap, ◌≢◌, ◌⊎◌, inl,
  inr, Bool, true, false, Option, none, some, arith, leb, ◌==◌, Bool-cases, Option-cases, u32,
  test_of_eq,
}
use minios_grub_bootloader.Pmm.{
  clear_page, State, page_size, page_directory_index, page_table_index, pmm_intr_alloc_page,
  find_first_page, intr_pages_count, pmm_intr_start_addr,
}
use minios_grub_bootloader.Vmm.{
  mapped_entry, store_entry, vmm_va2pa, map_loop, vmm_mappage, attach, kernel, table_of, Directory,
  page_round_down, vmm_walk_pgdir,
}

-- The loop ends, with an error or without.
abbrev pub Ends : Option (Bool × State) → Type 0
Ends o = (failed : Bool) × (s' : State) × (o ≡ some (failed, s'))

module _ (dir : Directory) (va pa : ℕ) (pte_p pte_w pte_u : Bool) where
  map_loop-Ends :
      (turns a last : ℕ) (s : State)
      → last < 0xFFFFF000
      → (last + page_size - a) / page_size < turns
      → Ends (map_loop dir va pa pte_p pte_w pte_u turns a last s)
  unfolding map_loop
  map_loop-Ends zero a last s low enough = absurd (omega arith)
  map_loop-Ends (suc turns) a last s low enough = elim (Bool-cases (leb a last)) [
    | inr over ↦ rw (map_loop, over) (false, s, refl)
    | inl inside ↦
        let next : u32 (a + page_size) ≡ a + page_size = ground arith in
        elim (Option-cases (vmm_walk_pgdir dir a s).0) [
          | inl none_left ↦
              rw (map_loop, inside, none_left) (true, (vmm_walk_pgdir dir a s).1, refl)
          | inr (address, there) ↦
              rw (map_loop, inside, there, next)
                (map_loop-Ends turns (a + page_size) last _ low (ground arith))
        ]
  ]

  -- A range whose last page is not the last one of the address space is mapped, or found impossible to
  -- map, within the turns of `vmm_mappage`.
  pub vmm_mappage-Ends :
      (size : ℕ) (s : State)
      → page_round_down (u32 (va + size + 2 ^ 32 - 1)) < 0xFFFFF000
      → Ends (vmm_mappage dir va pa pte_p pte_w pte_u size s)
  unfolding vmm_mappage
  vmm_mappage-Ends size s low =
      map_loop-Ends (2 ^ 20 + 1) (page_round_down va)
        (page_round_down (u32 (va + size + 2 ^ 32 - 1))) s low (omega arith)

  -- From a page of the 32-bit address space on, a range whose last page is the last one of the address
  -- space is never mapped to its end, whatever the number of turns: the loop goes on until
  -- no table can be made.
  pub map_loop_last_page :
      (turns a : ℕ) (s s' : State)
      → a % page_size ≡ 0
      → a < 2 ^ 32
      → map_loop dir va pa pte_p pte_w pte_u turns a 0xFFFFF000 s ≢ some (false, s')
  unfolding map_loop
  map_loop_last_page zero a s s' whole low = λ e. absurd (ground arith)
  map_loop_last_page (suc turns) a s s' whole low =
      let inside : leb a 0xFFFFF000 ≡ true = ground arith in
      elim (Option-cases (vmm_walk_pgdir dir a s).0) [
        | inl none_left ↦ rw (map_loop, inside, none_left) (λ e. cc)
        | inr (address, there) ↦
            rw (map_loop, inside, there)
              (map_loop_last_page turns (u32 (a + page_size)) _ s' (omega arith) (omega arith))
      ]

-- What the pool answers.
intr_page :
    (s : State)
    → ((find_first_page s.intr_bitmap intr_pages_count ≡ none)
        × (pmm_intr_alloc_page s ≡ (none, s)))
      ⊎ ((table : ℕ) × (s1 : State) × (pmm_intr_alloc_page s ≡ (some table, s1))
          × (table % page_size ≡ 0)
          × (table < 2 ^ 32))
unfolding pmm_intr_alloc_page
intr_page s = elim (Option-cases (find_first_page s.intr_bitmap intr_pages_count)) [
  | inl none_free ↦ inl (none_free, rw (pmm_intr_alloc_page, none_free) refl)
  | inr (index, found) ↦ inr (
    u32 (index * page_size + pmm_intr_start_addr),
    (pmm_intr_alloc_page s).1,
    rw (pmm_intr_alloc_page, found) refl,
    omega arith,
    omega arith,
  )
]

-- Where the entry of a page of the kernel is.
abbrev entry_address : ℕ → State → ℕ
entry_address va s =
    u32 (table_of (s.kpage_directory (page_directory_index va)) + page_table_index va * 4)

-- The outcomes of a walk in the directory of the kernel.
walk_cases :
    (va : ℕ) (s : State)
    → ((s' : State) × (vmm_walk_pgdir kernel va s ≡ (some (entry_address va s'), s'))
        × ((s'.kpage_directory (page_directory_index va)).present ≡ true))
      ⊎ ((vmm_walk_pgdir kernel va s ≡ (none, s))
          × ((s.kpage_directory (page_directory_index va)).present ≡ false)
          × (find_first_page s.intr_bitmap intr_pages_count ≡ none))
unfolding vmm_walk_pgdir
walk_cases va s = elim (Bool-cases (s.kpage_directory (page_directory_index va)).present) [
  | inl there ↦ inl (s, rw (vmm_walk_pgdir, there) refl, there)
  | inr missing ↦ elim (intr_page s) [
    | inl (full, e) ↦ inr (rw (vmm_walk_pgdir, missing, e, ap (λ x. x.1) e) refl, missing, full)
    | inr (table, s1, e, whole, low) ↦
        let pd = page_directory_index va in
        let same : (pd == pd) ≡ true = test_of_eq pd pd refl in
        let s2 : State =
          attach kernel pd table (record s1 { tables = clear_page table s1.tables }) in
        let there : (s2.kpage_directory pd).present ≡ true = rw same refl in
        let back : u32 (table / 2 ^ 12 * 2 ^ 12) ≡ table = omega arith in
        let address : entry_address va s2 ≡ u32 (table + page_table_index va * 4) =
          rw (same, back) refl in
        inl (s2, rw (vmm_walk_pgdir, missing, e, address, ap (λ x. x.1) e) refl, there)
  ]
]

-- The two results of `vmm_mappage` for one page of the kernel.
pub data Mapped (va pa : ℕ) (s : State) : Option (Bool × State) → Type 0 where
  mapped :
      (s' : State)
      → ((x : ℕ)
          → page_round_down x ≡ page_round_down va
          → vmm_va2pa kernel x s' ≡ some (bit_or (pa / page_size * page_size) (x % page_size)))
      → Mapped va pa s (some (false, s'))
  no_room :
      (s.kpage_directory (page_directory_index va)).present ≡ false
      → find_first_page s.intr_bitmap intr_pages_count ≡ none
      → Mapped va pa s (some (true, s))

-- A stored entry is translated.
va2pa-store_entry :
    (x va pa : ℕ) (w u : Bool) (s : State)
    → pa < 2 ^ 32
    → page_round_down x ≡ page_round_down va
    → (s.kpage_directory (page_directory_index va)).present ≡ true
    → vmm_va2pa kernel x (store_entry (entry_address va s) (mapped_entry true w u pa) s)
      ≡ some (bit_or (pa / page_size * page_size) (x % page_size))
unfolding vmm_va2pa
va2pa-store_entry x va pa w u s low same there =
    let pd : page_directory_index x ≡ page_directory_index va = omega arith in
    let pt : page_table_index x ≡ page_table_index va = omega arith in
    let here : (entry_address va s == entry_address va s) ≡ true =
      test_of_eq (entry_address va s) (entry_address va s) refl in
    let back : u32 (pa / 2 ^ 12 * 2 ^ 12) ≡ pa / page_size * page_size = omega arith in
    rw (vmm_va2pa, pd, pt, there, here, back) refl

-- The turns of the loop.
module _ (dir : Directory) (va pa : ℕ) (w u : Bool) (turns a last : ℕ) (s : State) where
  loop-over :
      leb a last ≡ false → map_loop dir va pa true w u (suc turns) a last s ≡ some (false, s)
  unfolding map_loop
  loop-over over = rw (map_loop, over) refl

  loop-no_table :
      (s1 : State)
      → leb a last ≡ true
      → vmm_walk_pgdir dir a s ≡ (none, s1)
      → map_loop dir va pa true w u (suc turns) a last s ≡ some (true, s1)
  unfolding map_loop
  loop-no_table s1 inside e = rw (map_loop, inside, ap (λ x. x.0) e, ap (λ x. x.1) e) refl

  loop-mapped :
      (address : ℕ) (s1 : State)
      → leb a last ≡ true
      → vmm_walk_pgdir dir a s ≡ (some address, s1)
      → map_loop dir va pa true w u (suc turns) a last s
        ≡ map_loop dir va pa true w u turns
            (u32 (a + page_size))
            last
            (store_entry address (mapped_entry true w u (u32 (pa + (a - page_round_down va)))) s1)
  unfolding map_loop
  loop-mapped address s1 inside e = rw (map_loop, inside, ap (λ x. x.0) e, ap (λ x. x.1) e) refl

module _ (va pa size : ℕ) (w u : Bool) where
  one_page-Mapped :
      (turns : ℕ) (s : State)
      → va < 0xFFFFF000
      → pa < 2 ^ 32
      → Mapped va pa s (
          map_loop kernel va pa true w u
            (suc (suc turns))
            (page_round_down va)
            (page_round_down va)
            s)
  one_page-Mapped turns s low pa_low =
      let start = page_round_down va in
      let inside : leb start start ≡ true = ground arith in
      let over : leb (u32 (start + page_size)) start ≡ false = ground arith in
      let pd : page_directory_index start ≡ page_directory_index va = omega arith in
      let pt : page_table_index start ≡ page_table_index va = omega arith in
      let at : u32 (pa + (start - page_round_down va)) ≡ pa = omega arith in
      elim (walk_cases start s) [
        | inr (e, missing, full) ↦
            rw (loop-no_table kernel va pa w u (suc turns) start start s s inside e)
              (no_room (rw (sym pd) missing) full)
        | inl (s1, e, there) ↦
            rw
              (
                loop-mapped kernel va pa w u (suc turns) start start s (entry_address start s1) s1
                    inside e,
                at,
                loop-over kernel va pa w u turns (u32 (start + page_size)) start
                    (store_entry (entry_address start s1) (mapped_entry true w u pa) s1) over,
              )
              (mapped _
                (λ x same. va2pa-store_entry x start pa w u s1 pa_low (omega (arith, same)) there))
      ]

  -- For a range of at least one byte within one page of the kernel, not the last one of the
  -- address space, and a physical address of 32 bits: when `vmm_mappage` maps it as present,
  -- either it succeeds and then every address of the page is translated to the same place in the
  -- page of `pa`, or the page has no table and the pool is empty, and then it fails and nothing is
  -- changed.
  pub vmm_mappage-Mapped :
      (s : State)
      → 0 < size
      → va % page_size + size ≤ page_size
      → va < 0xFFFFF000
      → pa < 2 ^ 32
      → Mapped va pa s (vmm_mappage kernel va pa true w u size s)
  unfolding vmm_mappage
  vmm_mappage-Mapped s some_bytes one_page low pa_low =
      let last : page_round_down (u32 (va + size + 2 ^ 32 - 1)) ≡ page_round_down va =
        omega arith in
      rw (vmm_mappage, last) (one_page-Mapped (2 ^ 20 - 1) s low pa_low)
