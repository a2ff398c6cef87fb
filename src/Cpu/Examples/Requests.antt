-- ===== src/Cpu/Examples/Requests.antt =====
-- The theorems about interrupt requests, with a key of the letter q.
use minios_grub_bootloader.Base.{
  false, ℕ, ◌≡◌, refl, true, Option, none, some, [], ◌∷◌, ◌++◌, arith, ◌==◌, if◌then◌else◌,
  replicate, length-replicate,
}
use minios_grub_bootloader.Keyboard.{buffer_size, character}
use minios_grub_bootloader.Keyboard.Queue.{IsValid, pending}
use minios_grub_bootloader.Process.{zeroed_process, runnable, running}
use minios_grub_bootloader.Pmm.{zero_entry}
use minios_grub_bootloader.Vmm.{as_directory}
use minios_grub_bootloader.Scheduler.{Scheduler}
use minios_grub_bootloader.Cpu.Irq.{Machine, resumed, keyboard_init, timer_init, irq_handler}
use minios_grub_bootloader.Cpu.Irq.Requests.{irq_handler-keyboard_init}

abbrev machine : Machine
machine = record {
  kernel = record {
    scheduler = record {
      system = record {
        pmm = record {
          bitmap = [];
          intr_bitmap = [];
          kpage_directory = λ i. as_directory zero_entry;
          tables = λ a. zero_entry;
          stray = [];
        };
        memory = λ a. 0;
        process =
            record zeroed_process { pid = 1; state = running }
            ∷ record zeroed_process { pid = 2; state = runnable }
            ∷ replicate 8 zeroed_process;
        next_pid = 3;
      };
      current_process = some 0;
      scheduler_running = true;
    };
    keyboard = record {
      caps = 0;
      capslock = 0;
      buffer = replicate buffer_size 0;
      write_index = 0;
      read_index = 0;
    };
    terminal = record { row = 0; column = 0; color = 7; buffer = replicate 2000 0; cursor = 0 };
  };
  irq_routines = replicate 16 none;
  written = [];
}

-- The status 1 and the code of the key.
abbrev key_pressed : ℕ → ℕ
key_pressed port = if port == 0x64 then 1 else 16

abbrev stays_away : ℕ → Scheduler → Option Scheduler
stays_away sp s = none

keyboard-IsValid : IsValid machine.kernel.keyboard
keyboard-IsValid = record {
  write_index = omega arith;
  read_index = omega arith;
  room = length-replicate {A = ℕ} 1024 0;
}

irq_handler-keyboard_init_example :
    (m' : Machine) × (irq_handler stays_away key_pressed 33 (keyboard_init machine) ≡ resumed m')
    × (pending m'.kernel.keyboard
        ≡ pending machine.kernel.keyboard ++ (character machine.kernel.keyboard 16 ∷ []))
    × (m'.kernel.scheduler ≡ machine.kernel.scheduler)
    × (m'.written ≡ (0x20, 0x20) ∷ [])
irq_handler-keyboard_init_example =
    irq_handler-keyboard_init stays_away key_pressed machine refl keyboard-IsValid (omega arith)

-- Before the scheduler is started.
abbrev booting : Machine
booting = record machine {
  kernel = record machine.kernel {
    scheduler = record machine.kernel.scheduler {
      current_process = none;
      scheduler_running = false;
    };
  };
}

abbrev machine_of : Option Machine → Machine
machine_of none = booting
machine_of (some m) = m

abbrev started : Machine
started = machine_of (timer_init 20 booting)

abbrev busy : Machine
busy = record machine { irq_routines = started.irq_routines }
