-- ===== src/Syscall/Examples.antt =====
-- The theorem about syscall.c: the key of the letter q is pressed while a process reads.
use minios_grub_bootloader.Base.{
  length-replicate, ℕ, ◌≡◌, refl, true, none, some, [], arith, replicate,
}
use minios_grub_bootloader.Pmm.{zero_entry}
use minios_grub_bootloader.Vmm.{as_directory}
use minios_grub_bootloader.Keyboard.{Keyboard, buffer_size, character, keyboard_handler}
use minios_grub_bootloader.Keyboard.Queue.{IsValid, pending}
use minios_grub_bootloader.Tty.{tty_putchar}
use minios_grub_bootloader.Process.{zeroed_process}
use minios_grub_bootloader.Syscall.{Registers, Kernel, answered, syscall_handler}
use minios_grub_bootloader.Syscall.Read.{syscall_handler-press}

abbrev registers : Registers
registers = record {
  cr2 = 0;
  ds = 0;
  edi = 0;
  esi = 0;
  ebp = 0;
  esp = 0;
  ebx = 0;
  edx = 0;
  ecx = 0;
  eax = 0;
  int_no = 0;
  err_code = 0;
  eip = 0;
  csm = 0;
  eflags = 0;
  useresp = 0;
  ss = 0;
}

abbrev reading : Kernel
reading = record {
  scheduler = record {
    system = record {
      pmm = record {
        bitmap = [];
        intr_bitmap = [];
        kpage_directory = λ i. as_directory zero_entry;
        tables = λ a. zero_entry;
        stray = [];
      };
      memory = λ a. 0;
      process = replicate 10 zeroed_process;
      next_pid = 1;
    };
    current_process = some 0;
    scheduler_running = true;
  };
  keyboard = record {
    caps = 0;
    capslock = 0;
    buffer = replicate buffer_size 0;
    write_index = 7;
    read_index = 7;
  };
  terminal = record { row = 0; column = 0; color = 7; buffer = []; cursor = 0 };
}

reading-IsValid : IsValid reading.keyboard
reading-IsValid = record {
  write_index = omega arith;
  read_index = omega arith;
  room = length-replicate {A = ℕ} buffer_size 0;
}

syscall_handler-press_example :
    (keyboard : Keyboard) × (syscall_handler
        (λ sp s. none)
        0
        (λ a. [])
        registers
        (record reading { keyboard = keyboard_handler 1 16 reading.keyboard })
      ≡ answered true
          (record registers { ecx = character reading.keyboard 16 })
          (record reading {
            keyboard = keyboard;
            terminal = tty_putchar (character reading.keyboard 16) reading.terminal;
          }))
    × (pending keyboard ≡ [])
syscall_handler-press_example =
    syscall_handler-press (λ sp s. none) 0 (λ a. []) 1 16 registers reading reading-IsValid refl
      refl refl refl
