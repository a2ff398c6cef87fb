-- ===== src/Process/Examples.antt =====
-- The theorems about process.c on an empty table, and on one with a process in its second slot.
use minios_grub_bootloader.Base.{[], ◌≡◌, ◌≢◌, replicate}
use minios_grub_bootloader.Pmm.{zero_entry}
use minios_grub_bootloader.Vmm.{as_directory, vmm_destroy_user_page_directory}
use minios_grub_bootloader.Process.{
  Process, System, unused, runnable, zeroed_process, put_process, slot, process_create,
  process_terminate,
}
use minios_grub_bootloader.Process.Create.{IsCreation, process_create-IsCreation}
use minios_grub_bootloader.Process.Terminate.{process_terminate_first}
use minios_grub_bootloader.Pmm

abbrev pages : Pmm.State
pages = record {
  bitmap = replicate 32 0;
  intr_bitmap = replicate 32 0;
  kpage_directory = λ i. as_directory zero_entry;
  tables = λ a. zero_entry;
  stray = [];
}

abbrev empty_table : System
empty_table = record {
  pmm = pages;
  memory = λ a. 0;
  process = replicate 10 zeroed_process;
  next_pid = 1;
}

process_create-IsCreation_example :
    IsCreation empty_table (process_create 0x200000 0x201000 0x700000 100 empty_table)
process_create-IsCreation_example =
    process_create-IsCreation 0x200000 0x201000 0x700000 100 empty_table

abbrev second : Process
second = record zeroed_process { pid = 2; state = runnable }

process_terminate_first_example :
    ((slot (put_process 1 second empty_table) 0).pid ≡ 2
      → process_terminate second (put_process 1 second empty_table)
        ≡ record (put_process 0
            (record (slot (put_process 1 second empty_table) 0) { state = unused })
            (put_process 1 second empty_table)) {
              pmm =
                  vmm_destroy_user_page_directory
                    (slot (put_process 1 second empty_table) 0).page_directory
                    pages;
            })
    × ((slot (put_process 1 second empty_table) 0).pid ≢ 2
        → process_terminate second (put_process 1 second empty_table)
          ≡ put_process 1 second empty_table)
process_terminate_first_example = process_terminate_first second (put_process 1 second empty_table)
