-- ===== src/Kmalloc/Examples.antt =====
-- The theorems about kmalloc.c on an empty heap.
use minios_grub_bootloader.Base.{arith}
use minios_grub_bootloader.Libc.Memory.{Bytes}
use minios_grub_bootloader.Kmalloc.{kmalloc}
use minios_grub_bootloader.Kmalloc.Blocks.{IsBytes, IsAllocated, kmalloc-IsAllocated}

abbrev empty : Bytes
empty a = 0

empty-IsBytes : IsBytes empty
empty-IsBytes a = omega arith

kmalloc-IsAllocated_example : IsAllocated 512 empty (kmalloc 512 empty)
kmalloc-IsAllocated_example = kmalloc-IsAllocated 512 empty empty-IsBytes (omega arith)

-- Every flag is set.
abbrev used : Bytes
used a = 255
