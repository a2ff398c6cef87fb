-- ===== src/Scheduler/Examples.antt =====
-- The theorem about scheduler.c: the first process is current and the second one is ready.
use minios_grub_bootloader.Base.{ℕ, ◌<◌, ◌≡◌, refl, true, false, none, some, [], ◌∷◌, replicate}
use minios_grub_bootloader.Pmm.{zero_entry}
use minios_grub_bootloader.Vmm.{as_directory}
use minios_grub_bootloader.Process.{runnable, running, zeroed_process, slot}
use minios_grub_bootloader.Scheduler.{Scheduler, halted, schedule}
use minios_grub_bootloader.Scheduler.Yield.{marked, schedule_halts}
use minios_grub_bootloader.Pmm

abbrev pages : Pmm.State
pages = record {
  bitmap = [];
  intr_bitmap = [];
  kpage_directory = λ i. as_directory zero_entry;
  tables = λ a. zero_entry;
  stray = [];
}

abbrev busy : Scheduler
busy = record {
  system = record {
    pmm = pages;
    memory = λ a. 0;
    process =
        record zeroed_process { pid = 1; state = running }
        ∷ record zeroed_process { pid = 2; state = runnable }
        ∷ replicate 8 zeroed_process;
    next_pid = 3;
  };
  current_process = some 0;
  scheduler_running = true;
}

schedule_halts_example :
    (s' : Scheduler) × (schedule (λ sp s. none) busy ≡ halted s')
    × ((k : ℕ) → k < 10 → slot s'.system k ≡ marked (slot busy.system k))
    × (s'.scheduler_running ≡ false)
schedule_halts_example = schedule_halts (λ sp s. none) busy 0 refl refl refl
