-- ===== src/Kmalloc.antt =====
-- The kernel's memory allocator, kernel/src/utils/kmalloc.c with kernel/include/utils/kmalloc.h. The
-- heap is part of a memory of bytes, a block has a header of its size and its flags, and NULL and the
-- panic are results of their own. `size_t` has 32 bits.
mod Blocks
mod Examples
use minios_grub_bootloader.Base.{
  ℕ, zero, suc, ◌+◌, ◌-◌, ◌*◌, ◌/◌, ◌%◌, ◌^◌, ◌≤◌, ◌<◌, min, bit_and, bit_or, ◌≡◌, refl, sym, ap,
  ap₂, ◌∙◌, ◌≢◌, ◌↔◌, ◌⊎◌, inl, inr, Bool, true, false, not, ◌&&◌, ◌||◌, Option, none, some, List,
  [], ◌∷◌, ◌++◌, map, append-nil, append_assoc, arith, ltb, leb, ◌==◌, if◌then◌else◌, Bool-cases,
  Option-cases, u8, u16, u32, ◌<<<◌, ◌>>>◌, length, get_elem?, get_or, set, take, drop, replicate,
}
use minios_grub_bootloader.Libc.Memory.{Bytes, store_byte, memset}

abbrev pub start_addr : ℕ
start_addr = 0x300000

abbrev pub end_addr : ℕ
end_addr = 0x3FFFFF

abbrev pub kmalloc_size : ℕ
kmalloc_size = end_addr - start_addr + 1

abbrev pub min_block_size : ℕ
min_block_size = 2

-- `sizeof(kmalloc_block_info_t)`
abbrev pub info_size : ℕ
info_size = 4

-- `info->size` and `info->flags`
pub size_at : Bytes → ℕ → ℕ
size_at m info = m info + m (info + 1) * 2 ^ 8

pub flags_at : Bytes → ℕ → ℕ
flags_at m info = m (info + 2) + m (info + 3) * 2 ^ 8

abbrev pub store_u16 : Bytes → ℕ → ℕ → Bytes
store_u16 m p v = store_byte (store_byte m p (v % 2 ^ 8)) (p + 1) (v / 2 ^ 8 % 2 ^ 8)

pub set_size : ℕ → ℕ → Bytes → Bytes
set_size info v m = store_u16 m info v

pub set_flags : ℕ → ℕ → Bytes → Bytes
set_flags info v m = store_u16 m (info + 2) v

-- A block's address, NULL, or a loop that has not ended.
pub data Search : Type 0 where
  found : ℕ → Search
  nowhere : Search
  unfinished : Search

-- The loop of `find_free_block` from the offset `i` on, for at most `fuel` turns.
pub find_from : ℕ → ℕ → ℕ → Bytes → Search
find_from zero i size m = unfinished
find_from (suc fuel) i size m =
    let info = start_addr + i in
    let rest = find_from fuel (i + (info_size + size_at m info)) size m in
    if leb kmalloc_size i
    then nowhere
    else if ltb (start_addr + kmalloc_size) (u32 (start_addr + i + info_size + size))
    then nowhere
    else if bit_and (flags_at m info) 1 == 0 && (leb size (size_at m info) || size_at m info == 0)
    then found info
    else rest

-- An offset grows by a header at least, so that these turns are enough.
abbrev pub enough_turns : ℕ
enough_turns = kmalloc_size / info_size + 1

pub find_free_block : ℕ → Bytes → Search
find_free_block size m = find_from enough_turns 0 size m

pub data Allocation : Type 0 where
  null : Allocation
  out_of_memory : Allocation
  hangs : Allocation
  returned : ℕ → Bytes → Allocation

-- The sizes after a block has been found. `info + info->size` counts in headers.
pub take_block : ℕ → ℕ → Bytes → Bytes
take_block info size m =
    let old = size_at m info in
    let limit = u32 (size + info_size + min_block_size) in
    if old == 0
    then set_size info (u16 size) m
    else if ltb old limit
    then set_size info (u16 limit) m
    else set_size info (u16 size)
        (set_size (info + old * info_size) (u16 (2 ^ 32 + old - size - info_size)) m)

-- `alloc_block` from the point where the search has ended.
pub alloc_found : ℕ → Bytes → Search → Allocation
alloc_found size m (found info) =
    returned (info + info_size)
      (take_block info size (set_flags info (bit_or (flags_at m info) 1) m))
alloc_found size m nowhere = out_of_memory
alloc_found size m unfinished = hangs

pub alloc_block : ℕ → Bytes → Allocation
alloc_block size m = if size == 0 then null else alloc_found size m (find_free_block size m)

pub kmalloc_init : Bytes → Bytes
kmalloc_init m = memset start_addr 0 kmalloc_size m

pub kmalloc : ℕ → Bytes → Allocation
kmalloc size m = alloc_block size m

pub kcalloc : ℕ → ℕ → Bytes → Allocation
kcalloc number size m = elim (alloc_block (u32 (number * size)) m) [
  | null ↦ null
  | out_of_memory ↦ out_of_memory
  | hangs ↦ hangs
  | returned ptr m' ↦ returned ptr (memset ptr 0 (u32 (number * size)) m')
]

pub kfree : ℕ → Bytes → Bytes
kfree ptr m =
    let info = ptr - info_size in
    if ptr == 0 || (ltb ptr start_addr || ltb end_addr ptr)
    then m
    else set_flags info (bit_and (flags_at m info) (2 ^ 16 - 2)) m
