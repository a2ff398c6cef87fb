-- ===== src/Vmm/Examples.antt =====
-- The theorems about vmm.c, from a memory of zeros on.
use minios_grub_bootloader.Base.{[], ap, ◌≡◌, refl, ◌≢◌, true, false, some, arith, replicate}
use minios_grub_bootloader.Pmm.{pmm_free_page, State, zero_entry}
use minios_grub_bootloader.Vmm.{
  user, entries_count, kernel, as_directory, vmm_init, vmm_va2pa, map_loop, vmm_mappage,
  vmm_destroy_user_page_directory,
}
use minios_grub_bootloader.Vmm.Walk.{Mapped, map_loop_last_page, vmm_mappage-Mapped}
use minios_grub_bootloader.Vmm.Directories.{
  free_tables-absent, vmm_destroy_keeps_pool, vmm_va2pa-vmm_init,
}

abbrev zeros : State
zeros = record {
  bitmap = replicate 32 0;
  intr_bitmap = replicate 32 0;
  kpage_directory = λ i. as_directory zero_entry;
  tables = λ a. zero_entry;
  stray = [];
}

vmm_va2pa-vmm_init_example :
    vmm_va2pa kernel 0x401234 (vmm_init 0x200000 0x201000 zeros) ≡ some 0x401234
vmm_va2pa-vmm_init_example =
    vmm_va2pa-vmm_init 0x200000 0x201000 refl refl (omega arith) (omega arith) (omega arith)
      0x401234 zeros (omega arith)

vmm_mappage-Mapped_example :
    Mapped 0x10000000 0x900000 zeros
      (vmm_mappage kernel 0x10000000 0x900000 true true true 4096 zeros)
vmm_mappage-Mapped_example =
    vmm_mappage-Mapped 0x10000000 0x900000 4096 true true zeros (omega arith) (omega arith)
      (omega arith) (omega arith)

map_loop_last_page_example :
    map_loop kernel 0xFFFFE000 0 true true true 5 0xFFFFE000 0xFFFFF000 zeros ≢ some (false, zeros)
map_loop_last_page_example =
    map_loop_last_page kernel 0xFFFFE000 0 true true true 5 0xFFFFE000 zeros zeros (omega arith)
      (omega arith)

nothing_mapped : vmm_destroy_user_page_directory 0x400000 zeros ≡ zeros
unfolding vmm_destroy_user_page_directory pmm_free_page
nothing_mapped =
    ap (pmm_free_page 0x400000)
      (free_tables-absent entries_count 0 (user 0x400000) zeros (λ k. refl))

vmm_destroy_keeps_pool_example :
    (vmm_destroy_user_page_directory 0x400000 zeros).intr_bitmap ≡ zeros.intr_bitmap
vmm_destroy_keeps_pool_example =
    vmm_destroy_keeps_pool 0x400000 zeros (ap (λ s. s.stray) nothing_mapped)
