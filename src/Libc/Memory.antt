-- ===== src/Libc/Memory.antt =====
-- libc/src/memory.c over a memory of bytes. Objects lie inside the address space, so no pointer
-- sum wraps. `memcpy` and `memmove` copy in place, byte by byte, in the order of the sources.
pub mod Copy
pub mod Compare
use minios_grub_bootloader.Base.{ℕ, zero, suc, ◌+◌, ltb, u8, ◌==◌, if◌then◌else◌, ℤ, pos, negsuc}

-- The byte at each address.
abbrev pub Bytes : Type 0
Bytes = ℕ → ℕ

abbrev pub store_byte : Bytes → ℕ → ℕ → Bytes
store_byte m p v = λ q. if q == p then v else m q

-- The loop `for (i = 0; i < size; i++)`, with the rounds left and the pointer `u8Ptr`.
memset_loop : ℕ → ℕ → ℕ → Bytes → Bytes
memset_loop zero p value m = m
memset_loop (suc left) p value m = memset_loop left (p + 1) value (store_byte m p (u8 value))

pub memset : ℕ → ℕ → ℕ → Bytes → Bytes
memset ptr value size m = memset_loop size ptr value m

-- The loop from index `i` on, `left` rounds before its end.
memcmp_loop : ℕ → ℕ → ℕ → ℕ → Bytes → ℤ
memcmp_loop zero i a b m = pos 0
memcmp_loop (suc left) i a b m =
    let rest = memcmp_loop left (i + 1) a b m in
    if ltb (m (a + i)) (m (b + i))
    then negsuc 0
    else if ltb (m (a + i)) (m (b + i))
    then pos 1
    else rest

pub memcmp : ℕ → ℕ → ℕ → Bytes → ℤ
memcmp ptr1 ptr2 size m = memcmp_loop size 0 ptr1 ptr2 m

copy_up : ℕ → ℕ → ℕ → ℕ → Bytes → Bytes
copy_up zero i dst src m = m
copy_up (suc left) i dst src m = copy_up left (i + 1) dst src (store_byte m (dst + i) (m (src + i)))

pub memcpy : ℕ → ℕ → ℕ → Bytes → Bytes
memcpy dst src size m = copy_up size 0 dst src m

-- `for (i = size; i != 0; i--) dst[i-1] = src[i-1];`
copy_down : ℕ → ℕ → ℕ → Bytes → Bytes
copy_down zero dst src m = m
copy_down (suc i) dst src m = copy_down i dst src (store_byte m (dst + i) (m (src + i)))

pub memmove : ℕ → ℕ → ℕ → Bytes → Bytes
memmove dst src size m = if ltb dst src then copy_up size 0 dst src m else copy_down size dst src m
