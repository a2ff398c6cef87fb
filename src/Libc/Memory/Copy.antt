-- ===== src/Libc/Memory/Copy.antt =====
-- `memset`, `memcpy` and `memmove`, address by address.
use minios_grub_bootloader.Base.{
  ℕ, zero, suc, ◌+◌, ◌-◌, ◌≤◌, ◌≡◌, ◌⊎◌, Bool, arith, ltb, leb, u8, ◌&&◌, if◌then◌else◌,
}
use minios_grub_bootloader.Libc.Memory.{
  Bytes, store_byte, memset_loop, memset, copy_up, copy_down, memcpy, memmove,
}

abbrev in_block : ℕ → ℕ → ℕ → Bool
in_block p n q = leb p q && ltb q (p + n)

memset_loop_lem :
    (left p value : ℕ) (m : Bytes) (q : ℕ)
    → memset_loop left p value m q ≡ (if in_block p left q then u8 value else m q)
unfolding memset_loop
memset_loop_lem zero p value m q = ground arith
memset_loop_lem (suc left) p value m q =
    ground (arith, memset_loop_lem left (p + 1) value (store_byte m p (u8 value)) q)

-- `memset` fills exactly the `size` bytes from `ptr` on with the low byte of the value.
pub memset_lem :
    (ptr value size : ℕ) (m : Bytes) (q : ℕ)
    → memset ptr value size m q ≡ (if in_block ptr size q then u8 value else m q)
unfolding memset
memset_lem ptr value size m q = memset_loop_lem size ptr value m q

-- Copying upwards from index `i` meets only source bytes that are not yet overwritten, if the
-- destination is not above the source, or the blocks are apart.
copy_up_lem :
    (left i dst src : ℕ) (m : Bytes) (q : ℕ)
    → (dst ≤ src) ⊎ (src + i + left ≤ dst + i)
    → copy_up left i dst src m q ≡ (if in_block (dst + i) left q then m (src + (q - dst)) else m q)
unfolding copy_up
copy_up_lem zero i dst src m q h = ground arith
copy_up_lem (suc left) i dst src m q h =
    ground (arith, copy_up_lem left (i + 1) dst src (store_byte m (dst + i) (m (src + i))) q)

copy_down_lem :
    (n dst src : ℕ) (m : Bytes) (q : ℕ)
    → (src ≤ dst) ⊎ (dst + n ≤ src)
    → copy_down n dst src m q ≡ (if in_block dst n q then m (src + (q - dst)) else m q)
unfolding copy_down
copy_down_lem zero dst src m q h = ground arith
copy_down_lem (suc n) dst src m q h =
    ground (arith, copy_down_lem n dst src (store_byte m (dst + n) (m (src + n))) q)

-- `memmove` moves the block, overlapping or not: each byte of the destination gets the byte that
-- the source held before the call, and no other byte changes.
pub memmove_lem :
    (dst src size : ℕ) (m : Bytes) (q : ℕ)
    → memmove dst src size m q ≡ (if in_block dst size q then m (src + (q - dst)) else m q)
unfolding memmove
memmove_lem dst src size m q =
    ground (arith, copy_up_lem size 0 dst src m q, copy_down_lem size dst src m q)

-- `memcpy` of blocks that do not overlap, or whose destination is not above the source, moves the
-- block in the same way.
pub memcpy_lem :
    (dst src size : ℕ) (m : Bytes) (q : ℕ)
    → (dst ≤ src) ⊎ (src + size ≤ dst)
    → memcpy dst src size m q ≡ (if in_block dst size q then m (src + (q - dst)) else m q)
unfolding memcpy
memcpy_lem dst src size m q h = ground (arith, copy_up_lem size 0 dst src m q)
