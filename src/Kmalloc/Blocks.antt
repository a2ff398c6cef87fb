-- ===== src/Kmalloc/Blocks.antt =====
-- The blocks that the allocator gives out.
use minios_grub_bootloader.Base.{
  false, ◌-◌, bit_of-bit_and, ◌∙◌, refl, ap, bit_and_mask, bit_of-bit_or, bit_or, eq_of_test,
  ne_of_test, Bool, Bool-cases, inl, inr, ltb, leb, ◌==◌, ◌&&◌, ◌||◌, u32, ℕ, zero, suc, ◌+◌, ◌*◌,
  ◌/◌, ◌%◌, ◌^◌, ◌≤◌, ◌<◌, bit_and, ◌≡◌, ◌⊎◌, arith,
}
use minios_grub_bootloader.Libc.Memory.{Bytes}
use minios_grub_bootloader.Kmalloc.{
  end_addr, alloc_found, kfree, out_of_memory, null, start_addr, kmalloc_size, info_size, size_at,
  flags_at, set_size, set_flags, Search, found, nowhere, find_from, find_free_block, Allocation,
  returned, take_block, alloc_block, kmalloc,
}

-- From one header the search comes to another by the sizes of the blocks.
pub data Reaches (m : Bytes) : ℕ → ℕ → Type 0 where
  there : {a : ℕ} → Reaches m a a
  next : {a b : ℕ} → Reaches m (a + (info_size + size_at m a)) b → Reaches m a b

Reaches-above : {m : Bytes} {a b : ℕ} → Reaches m a b → a ≤ b
Reaches-above there = omega arith
Reaches-above (next r) = omega (arith, Reaches-above r)

-- A block that may be taken: its header and `size` bytes are in the heap, it is free, and it has
-- room for `size` bytes or has never been used.
pub record IsFree (size : ℕ) (m : Bytes) (info : ℕ) : Type 0 where
  pub above : start_addr ≤ info
  pub inside : info + info_size + size ≤ start_addr + kmalloc_size
  pub free : bit_and (flags_at m info) 1 ≡ 0
  pub fits : (size ≤ size_at m info) ⊎ (size_at m info ≡ 0)

-- A header from `a` on, or none of them is that of a block that may be taken.
pub data IsFound (size : ℕ) (m : Bytes) (a : ℕ) : Search → Type 0 where
  at_block : {info : ℕ} → Reaches m a info → IsFree size m info → IsFound size m a (found info)
  no_block : ((info : ℕ) → Reaches m a info → ¬ IsFree size m info) → IsFound size m a nowhere

none_from :
    (size : ℕ) (m : Bytes) (a : ℕ)
    → ¬ IsFree size m a
    → ((info : ℕ) → Reaches m (a + (info_size + size_at m a)) info → ¬ IsFree size m info)
    → (info : ℕ) → Reaches m a info
    → ¬ IsFree size m info
none_from size m a unfit none_later info there free = unfit free
none_from size m a unfit none_later info (next r) free = none_later info r free

IsFound-next :
    (size : ℕ) (m : Bytes) (a : ℕ) {r : Search}
    → ¬ IsFree size m a
    → IsFound size m (a + (info_size + size_at m a)) r
    → IsFound size m a r
IsFound-next size m a unfit (at_block reached free) = at_block (next reached) free
IsFound-next size m a unfit (no_block none_there) = no_block (none_from size m a unfit none_there)

-- The memory holds bytes.
abbrev pub IsBytes : Bytes → Type 0
IsBytes m = (a : ℕ) → m a < 256

-- One turn of the loop, with what the next turns find.
find_from_turn :
    (left i size : ℕ) (m : Bytes)
    → size < 2 ^ 31
    → i < 2 ^ 21
    → (i < kmalloc_size
        → IsFound size m
            (start_addr + (i + (info_size + size_at m (start_addr + i))))
            (find_from left (i + (info_size + size_at m (start_addr + i))) size m))
    → IsFound size m (start_addr + i) (find_from (suc left) i size m)
unfolding find_from
find_from_turn left i size m small near rest = elim (Bool-cases (leb kmalloc_size i)) [
  | inl past ↦
      rw past
        (no_block (λ info r free. absurd (ground (arith, past, Reaches-above r, free.inside))))
  | inr inside ↦
      rw inside
        (elim (Bool-cases
          (ltb (start_addr + kmalloc_size) (u32 (start_addr + i + info_size + size)))) [
            | inl over ↦ rw over (
                no_block (λ info r free.
                  absurd (ground (arith, over, small, near, Reaches-above r, free.inside))))
            | inr fits ↦ rw fits (elim (Bool-cases (fit i)) [
              | inl usable ↦ rw usable (
                  at_block there (record {
                    above = omega arith;
                    inside = ground (arith, fits, small, near);
                    free = ground (arith, usable);
                    fits = ground (arith, usable);
                  }))
              | inr unfit ↦ rw unfit (
                  IsFound-next size m (start_addr + i)
                    (λ free. absurd (ground (arith, unfit, free.free, free.fits)))
                    (let same : start_addr + (i + (info_size + size_at m (start_addr + i)))
                          ≡ start_addr + i + (info_size + size_at m (start_addr + i)) =
                        omega arith in
                      rw same at (rest (ground (arith, inside)))))
            ])
          ])
]
  where
    fit : ℕ → Bool
    fit k =
        bit_and (flags_at m (start_addr + k)) 1 == 0
        && (leb size (size_at m (start_addr + k)) || size_at m (start_addr + k) == 0)

find_from-IsFound :
    (left i size : ℕ) (m : Bytes)
    → IsBytes m
    → size < 2 ^ 31
    → i < 2 ^ 21
    → kmalloc_size ≤ i + left * info_size
    → IsFound size m (start_addr + i) (find_from (suc left) i size m)
unfolding size_at
find_from-IsFound zero i size m bytes small near enough =
    find_from_turn zero i size m small near (λ inside. absurd (omega arith))
find_from-IsFound (suc left) i size m bytes small near enough =
    find_from_turn (suc left) i size m small near (λ inside.
      find_from-IsFound left (i + (info_size + size_at m (start_addr + i))) size m bytes small
        (omega (arith, bytes (start_addr + i), bytes (start_addr + i + 1))) (omega arith))

-- The search ends within the turns that it is given; it finds a free block, if there is one.
pub find_free_block-IsFound :
    (size : ℕ) (m : Bytes)
    → IsBytes m
    → size < 2 ^ 31
    → IsFound size m start_addr (find_free_block size m)
unfolding find_free_block
find_free_block-IsFound size m bytes small =
    find_from-IsFound (kmalloc_size / info_size) 0 size m bytes small (omega arith) (omega arith)

-- What `kmalloc` gives: NULL for no bytes, the panic when no header is that of a block that may be
-- taken, or the bytes behind the header of such a block, which is marked as used.
pub data IsAllocated (size : ℕ) (m : Bytes) : Allocation → Type 0 where
  nothing : size ≡ 0 → IsAllocated size m null
  panics :
      0 < size
      → ((info : ℕ) → Reaches m start_addr info → ¬ IsFree size m info)
      → IsAllocated size m out_of_memory
  block :
      {info : ℕ} {m' : Bytes}
      → 0 < size
      → Reaches m start_addr info
      → IsFree size m info
      → bit_and (flags_at m' info) 1 ≡ 1
      → IsAllocated size m (returned (info + info_size) m')

take_block-flags :
    (info size : ℕ) (m : Bytes) → flags_at (take_block info size m) info ≡ flags_at m info
unfolding take_block set_size flags_at
take_block-flags info size m = ground arith

set_flags_low : (info v : ℕ) (m : Bytes) → bit_and (flags_at (set_flags info v m) info) 1 ≡ v % 2
unfolding set_flags flags_at
set_flags_low info v m = ground (arith, bit_and_mask 1 (v % 2 ^ 8 + v / 2 ^ 8 % 2 ^ 8 * 2 ^ 8))

set_flags_outside :
    (info v : ℕ) (m : Bytes) (q : ℕ) → (q < info + 2) ⊎ (info + 4 ≤ q) → set_flags info v m q ≡ m q
unfolding set_flags
set_flags_outside info v m q out = ground arith

set_flags-used :
    (info : ℕ) (m : Bytes)
    → bit_and (flags_at (set_flags info (bit_or (flags_at m info) 1) m) info) 1 ≡ 1
set_flags-used info m =
    set_flags_low info (bit_or (flags_at m info) 1) m
    ∙ omega (arith, bit_of-bit_or 0 (flags_at m info) 1)

found-IsAllocated :
    (size : ℕ) (m : Bytes) {r : Search}
    → 0 < size
    → IsFound size m start_addr r
    → IsAllocated size m (alloc_found size m r)
unfolding alloc_found
found-IsAllocated size m p (at_block {info} reached free) = block p reached free (
    ap (λ v. bit_and v 1)
      (take_block-flags info size (set_flags info (bit_or (flags_at m info) 1) m))
    ∙ set_flags-used info m)
found-IsAllocated size m p (no_block none_there) = panics p none_there

-- On a memory of bytes and for a size below 2^31 a call of `kmalloc` does not hang: it returns
-- NULL for the size 0. For any other size it returns the address behind a header that is reached
-- from the start of the heap by the sizes of the blocks, of a block that was free, whose header and
-- `size` bytes lie in the heap, which had room for the size or had never been used, and which is
-- marked as used afterwards, or it panics, which it does only if no such header is reached.
pub kmalloc-IsAllocated :
    (size : ℕ) (m : Bytes) → IsBytes m → size < 2 ^ 31 → IsAllocated size m (kmalloc size m)
unfolding kmalloc alloc_block
kmalloc-IsAllocated size m bytes small = elim (Bool-cases (size == 0)) [
  | inl z ↦ rw (kmalloc, alloc_block, z) (nothing (eq_of_test size 0 z))
  | inr nz ↦
      rw (kmalloc, alloc_block, nz)
        (found-IsAllocated size m (omega (arith, ne_of_test size 0 nz))
          (find_free_block-IsFound size m bytes small))
]

-- For a block whose header and next byte lie in the heap, `kfree` of the address behind the header
-- marks the block as free and changes no byte but the two of its flags.
pub kfree_lem :
    (info : ℕ) (m : Bytes)
    → start_addr ≤ info
    → info + info_size ≤ end_addr
    → (bit_and (flags_at (kfree (info + info_size) m) info) 1 ≡ 0)
      × ((q : ℕ) → (q < info + 2) ⊎ (info + 4 ≤ q) → kfree (info + info_size) m q ≡ m q)
unfolding kfree
kfree_lem info m low high = rw e (
  set_flags_low info (bit_and (flags_at m info) (2 ^ 16 - 2)) m
      ∙ omega (arith, bit_of-bit_and 0 (flags_at m info) (2 ^ 16 - 2)),
  set_flags_outside info (bit_and (flags_at m info) (2 ^ 16 - 2)) m,
)
  where
    same : info + info_size - info_size ≡ info
    same = omega arith

    guard :
        (info + info_size == 0
          || (ltb (info + info_size) start_addr || ltb end_addr (info + info_size)))
        ≡ false
    guard = ground arith

    e : kfree (info + info_size) m ≡ set_flags info (bit_and (flags_at m info) (2 ^ 16 - 2)) m
    e = rw (kfree, guard, same) refl
