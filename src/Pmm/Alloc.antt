-- ===== src/Pmm/Alloc.antt =====
-- Allocating and freeing pages.
use minios_grub_bootloader.Base.{
  Bool-cases, ◌∙◌, ◌-◌, ap, inr, inl, Option-cases, ℕ, zero, suc, ◌+◌, ◌*◌, ◌/◌, ◌<◌, ◌≡◌, refl,
  ◌≢◌, ◌==◌, Option, none, some, List, arith, u32, length, get_or, replicate, length-replicate,
}
use minios_grub_bootloader.Pmm.{
  bitmap_clear, page_directory_index, DirectoryEntry, take_page, pmm_free_page, pmm_alloc_page,
  State, returned, pages_count, intr_pages_count, page_size, pmm_start_addr, pmm_intr_start_addr,
  clear_page, fill_first, find_first_page, bitmap_set, pmm_init, pmm_intr_alloc_page, fill_entry,
}
use minios_grub_bootloader.Pmm.Bitmap.{
  length-bitmap_set, taken-bitmap_clear, taken, taken-bitmap_set, IsFirstFree, first, full,
  find_first_page-IsFirstFree,
}

-- The arrays have the words that the sources declare.
pub record IsValid (s : State) : Type 0 where
  pub words : length s.bitmap ≡ pages_count / 32
  pub intr_words : length s.intr_bitmap ≡ intr_pages_count / 32

get_or-replicate : (n i : ℕ) → get_or {A = ℕ} (replicate n 0) i 0 ≡ 0
get_or-replicate zero i = refl
get_or-replicate (suc n) zero = refl
get_or-replicate (suc n) (suc i) = get_or-replicate n i

taken-replicate : (n page : ℕ) → taken (replicate n 0) page ≡ 0
taken-replicate n page = rw (get_or-replicate n (page / 32)) (omega arith)

-- `pmm_init` leaves arrays of the declared size in which no page is taken.
pub pmm_init_lem :
    (s : State) (page : ℕ)
    → IsValid (pmm_init s)
      × (taken (pmm_init s).bitmap page ≡ 0)
      × (taken (pmm_init s).intr_bitmap page ≡ 0)
unfolding pmm_init
pmm_init_lem s page = (
  record {
    words = length-replicate {A = ℕ} (pages_count / 32) 0;
    intr_words = length-replicate {A = ℕ} (intr_pages_count / 32) 0;
  },
  taken-replicate (pages_count / 32) page,
  taken-replicate (intr_pages_count / 32) page,
)

-- What a successful allocation of the page with number `page` does to one bitmap.
pub record IsTaken (before after : List ℕ) (limit page : ℕ) : Type 0 where
  pub in_range : page < limit
  pub was_free : taken before page ≡ 0
  pub lowest : (p : ℕ) → p < page → taken before p ≡ 1
  pub now_taken : taken after page ≡ 1
  pub others : (p : ℕ) → p ≢ page → taken after p ≡ taken before p

-- The outcomes of `pmm_intr_alloc_page`.
pub data IntrAlloc (s : State) : Option ℕ × State → Type 0 where
  got :
      {s' : State} (page : ℕ)
      → IsTaken s.intr_bitmap s'.intr_bitmap (intr_pages_count / 32 * 32) page
      → ((a : ℕ) → s'.tables a ≡ clear_page (pmm_intr_start_addr + page * page_size) s.tables a)
      → (s'.bitmap ≡ s.bitmap)
      → (length s'.intr_bitmap ≡ length s.intr_bitmap)
      → IntrAlloc s (some (pmm_intr_start_addr + page * page_size), s')
  out_of_pages :
      ((p : ℕ) → p < intr_pages_count / 32 * 32 → taken s.intr_bitmap p ≡ 1) → IntrAlloc s (none, s)

set-IsTaken :
    (bitmap : List ℕ) (limit page : ℕ)
    → page < limit
    → taken bitmap page ≡ 0
    → ((p : ℕ) → p < page → taken bitmap p ≡ 1)
    → page / 32 < length bitmap
    → IsTaken bitmap (bitmap_set bitmap page) limit page
set-IsTaken bitmap limit page lt z low inside = record {
  in_range = lt;
  was_free = z;
  lowest = low;
  now_taken = ground (arith, taken-bitmap_set bitmap page page inside);
  others = λ p ne. ground (arith, taken-bitmap_set bitmap page p inside);
}

-- On arrays of the declared size `pmm_intr_alloc_page` takes the lowest free page, clears it and
-- returns its address, and returns NULL and changes nothing exactly when no page is free.
pub pmm_intr_alloc_page-IntrAlloc : (s : State) → IsValid s → IntrAlloc s (pmm_intr_alloc_page s)
unfolding pmm_intr_alloc_page
pmm_intr_alloc_page-IntrAlloc s v =
    go (find_first_page s.intr_bitmap intr_pages_count)
      (find_first_page-IsFirstFree s.intr_bitmap intr_pages_count)
  where
    go :
        (o : Option ℕ)
        → IsFirstFree s.intr_bitmap (intr_pages_count / 32 * 32) o
        → IntrAlloc s (elim o [
          | none ↦ (none, s)
          | some index ↦
              let addr = u32 (index * page_size + pmm_intr_start_addr) in
              (
                some addr,
                record s {
                  intr_bitmap = bitmap_set s.intr_bitmap index;
                  tables = clear_page addr s.tables;
                },
              )
        ])
    go none (full all) = out_of_pages all
    go (some page) (first lt z low) =
        let at : u32 (page * page_size + pmm_intr_start_addr)
            ≡ pmm_intr_start_addr + page * page_size =
          omega arith in
        rw at (
          got page
            (set-IsTaken s.intr_bitmap (intr_pages_count / 32 * 32) page lt z low
              (omega (arith, v.intr_words)))
            (λ a. refl) refl (length-bitmap_set s.intr_bitmap page))

-- What a call of `pmm_alloc_page` that returns a page has done to the bitmaps.
pub record IsAllocated (s s' : State) (addr : ℕ) : Type 0 where
  pub page : ℕ
  pub address : addr ≡ pmm_start_addr + page * page_size
  pub takes : IsTaken s.bitmap s'.bitmap (pages_count / 32 * 32) page
  pub valid : IsValid s'

fill_entry-bitmap :
    (a t : ℕ) (s : State) {addr : ℕ} {s' : State}
    → fill_entry a t s ≡ returned (some addr) s'
    → (addr ≡ a) × (s'.bitmap ≡ s.bitmap) × (s'.intr_bitmap ≡ s.intr_bitmap)
unfolding fill_entry
fill_entry-bitmap a t s h = ground arith

fill_first-bitmap :
    (a pt t : ℕ) (s : State) {addr : ℕ} {s' : State}
    → fill_first a pt t s ≡ returned (some addr) s'
    → (addr ≡ a) × (s'.bitmap ≡ s.bitmap) × (s'.intr_bitmap ≡ s.intr_bitmap)
unfolding fill_first
fill_first-bitmap a pt t s h = elim (Bool-cases (pt == 0)) [
  | inl own ↦ fill_entry-bitmap a t s (rw (fill_first, own) at h)
  | inr other ↦ absurd (let e = rw (fill_first, other) at h in cc)
]

intr_alloc_keeps :
    (s : State)
    → ((pmm_intr_alloc_page s).1.bitmap ≡ s.bitmap)
      × (length (pmm_intr_alloc_page s).1.intr_bitmap ≡ length s.intr_bitmap)
unfolding pmm_intr_alloc_page
intr_alloc_keeps s = elim (Option-cases (find_first_page s.intr_bitmap intr_pages_count)) [
  | inl e ↦ rw (pmm_intr_alloc_page, e) (refl, refl)
  | inr (page, e) ↦ rw (pmm_intr_alloc_page, e) (refl, length-bitmap_set s.intr_bitmap page)
]

take_page-returned :
    (index : ℕ) (s : State) {addr : ℕ} {s' : State}
    → take_page index s ≡ returned (some addr) s'
    → (addr ≡ u32 (index * page_size + pmm_start_addr))
      × (s'.bitmap ≡ bitmap_set s.bitmap index)
      × (length s'.intr_bitmap ≡ length s.intr_bitmap)
unfolding take_page
take_page-returned index s {addr} {s'} h = by_table
  where
    page_addr : ℕ
    page_addr = u32 (index * page_size + pmm_start_addr)

    s1 : State
    s1 = record s { bitmap = bitmap_set s.bitmap index }

    dir : DirectoryEntry
    dir = s.kpage_directory (page_directory_index page_addr)

    by_table :
        (addr ≡ page_addr)
        × (s'.bitmap ≡ bitmap_set s.bitmap index)
        × (length s'.intr_bitmap ≡ length s.intr_bitmap)
    by_table = elim (Bool-cases dir.present) [
      | inl old ↦
          let f = fill_entry-bitmap page_addr _ s1 (rw (take_page, old) at h) in
          (f.0, f.1, ap length f.2)
      | inr new ↦ elim (Option-cases (pmm_intr_alloc_page s1).0) [
        | inl none_left ↦ absurd (let e = rw (take_page, new, none_left) at h in cc)
        | inr (t, e) ↦
            let f = fill_first-bitmap page_addr _ t _ (rw (take_page, new, e) at h) in
            (f.0, f.1 ∙ (intr_alloc_keeps s1).0, ap length f.2 ∙ (intr_alloc_keeps s1).1)
      ]
    ]

-- On arrays of the declared size a call of `pmm_alloc_page` that returns a page returns the lowest
-- page that was free, and takes it and no other.
pub pmm_alloc_page-IsAllocated :
    (s : State) {addr : ℕ} {s' : State}
    → IsValid s
    → pmm_alloc_page s ≡ returned (some addr) s'
    → IsAllocated s s' addr
unfolding pmm_alloc_page
pmm_alloc_page-IsAllocated s {addr} {s'} v h =
    go (find_first_page s.bitmap pages_count) (find_first_page-IsFirstFree s.bitmap pages_count) h
  where
    go :
        (o : Option ℕ)
        → IsFirstFree s.bitmap (pages_count / 32 * 32) o
        → elim o [ none ↦ returned none s | some index ↦ take_page index s ]
          ≡ returned (some addr) s'
        → IsAllocated s s' addr
    go none (full all) e = absurd (cc)
    go (some page) (first lt z low) e =
        let r = take_page-returned page s e in
        let t =
          set-IsTaken s.bitmap (pages_count / 32 * 32) page lt z low (omega (arith, v.words)) in
        record {
          page = page;
          address = r.0 ∙ omega arith;
          takes = rw r.1 t;
          valid = record {
            words = ap length r.1 ∙ length-bitmap_set s.bitmap page ∙ v.words;
            intr_words = r.2 ∙ v.intr_words;
          };
        }

-- On arrays of the declared size, freeing the page that a call of `pmm_alloc_page` has just
-- returned makes the set of taken pages what it was before the call.
pub pmm_free_page-pmm_alloc_page :
    (s : State) {addr : ℕ} {s' : State} (p : ℕ)
    → IsValid s
    → pmm_alloc_page s ≡ returned (some addr) s'
    → taken (pmm_free_page addr s').bitmap p ≡ taken s.bitmap p
unfolding pmm_free_page
pmm_free_page-pmm_alloc_page s {addr} {s'} p v h =
    let a = pmm_alloc_page-IsAllocated s v h in
    let other =
      taken-bitmap_clear s'.bitmap a.page p (omega (arith, a.valid.words, a.takes.in_range)) in
    let number : (addr - pmm_start_addr) / page_size ≡ a.page = omega (arith, a.address) in
    let clears : (pmm_free_page addr s').bitmap ≡ bitmap_clear s'.bitmap a.page =
      ground (arith, number, a.address, a.takes.in_range) in
    rw (clears, other) (ground (arith, a.takes.others p, a.takes.was_free))
