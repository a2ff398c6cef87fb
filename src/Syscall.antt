-- ===== src/Syscall.antt =====
-- System calls, kernel/src/cpu/syscall.c, on the scheduler, the keyboard and the terminal.
pub mod Read
mod Examples
use minios_grub_bootloader.Base.{
  ℕ, zero, suc, ◌+◌, ◌-◌, ◌*◌, ◌/◌, ◌%◌, ◌^◌, ◌≤◌, ◌<◌, min, bit_and, bit_or, ◌≡◌, refl, sym, ap,
  ap₂, ◌∙◌, ◌≢◌, ◌↔◌, ◌⊎◌, inl, inr, Bool, true, false, not, ◌&&◌, ◌||◌, Option, none, some, List,
  [], ◌∷◌, ◌++◌, map, append-nil, append_assoc, arith, ltb, leb, ◌==◌, if◌then◌else◌, Bool-cases,
  Option-cases, u8, u16, u32, ◌<<<◌, ◌>>>◌, length, get_elem?, get_or, set, take, drop, replicate,
}
use minios_grub_bootloader.Keyboard.{Keyboard, keyboard_getchar}
use minios_grub_bootloader.Tty.{Terminal, tty_putchar, tty_puts}
use minios_grub_bootloader.Vmm.{vmm_switch_kernel_page_directory}
use minios_grub_bootloader.Process.{Process, System, slot, process_terminate}
use minios_grub_bootloader.Scheduler.{
  Scheduler, Scheduled, returned, switched, halted, yield_process,
}
use minios_grub_bootloader.Pmm

abbrev pub syscall_count : ℕ
syscall_count = 3

-- `registers_t` (kernel/include/cpu/irq.h)
pub record Registers : Type 0 where
  pub cr2 : ℕ
  pub ds : ℕ
  pub edi : ℕ
  pub esi : ℕ
  pub ebp : ℕ
  pub esp : ℕ
  pub ebx : ℕ
  pub edx : ℕ
  pub ecx : ℕ
  pub eax : ℕ
  pub int_no : ℕ
  pub err_code : ℕ
  pub eip : ℕ
  pub csm : ℕ
  pub eflags : ℕ
  pub useresp : ℕ
  pub ss : ℕ

pub record Kernel : Type 0 where
  pub scheduler : Scheduler
  pub keyboard : Keyboard
  pub terminal : Terminal

-- What becomes of a call: it waits for a key, reads through a null pointer, maps without an end, returns,
-- or does not come back.
pub data Served (A : Type 0) : Type 0 where
  waits : Served A
  faults : Served A
  unending : Served A
  answered : A → Registers → Kernel → Served A
  gone : Scheduled → Served A

-- The result of `keyboard_getchar`, which prints the character that it takes.
abbrev pub got : Option (ℕ × Keyboard) → Registers → Kernel → Served ℕ
got none regs k = waits
got (some (c, keyboard)) regs k =
    answered 0 (record regs { ecx = c })
      (record k { keyboard = keyboard; terminal = tty_putchar c k.terminal })

-- `garbage` is what the variable `c` holds where it is not assigned.
pub syscall_read : ℕ → Registers → Kernel → Served ℕ
syscall_read garbage regs k =
    if regs.ebx == 0
    then got (keyboard_getchar k.keyboard) regs k
    else answered 0 (record regs { ecx = garbage }) k

-- `string_at` gives the bytes of the string at an address.
pub syscall_write : (ℕ → List ℕ) → Registers → Kernel → Served ℕ
syscall_write string_at regs k =
    if regs.ecx == 1
    then answered 0 regs (record k { terminal = tty_puts (string_at regs.ebx) k.terminal })
    else answered 1 regs k

module _ (switch_context : ℕ → Scheduler → Option Scheduler) where
  -- The rest of `syscall_exit` for the process in a slot, after the directory of the kernel is loaded.
  pub end_process : ℕ → Registers → Kernel → Pmm.State → Served ℕ
  end_process i regs k pmm =
      let system = record k.scheduler.system { pmm = pmm } in
      let s = record k.scheduler {
        system = process_terminate (slot system i) system;
        current_process = none;
      } in
      elim (yield_process switch_context s) [
        | returned s' ↦ answered 0 regs (record k { scheduler = s' })
        | switched s' ↦ gone (switched s')
        | halted s' ↦ gone (halted s')
      ]

  pub syscall_exit : Registers → Kernel → Served ℕ
  syscall_exit regs k = elim k.scheduler.current_process [
    | none ↦ faults
    | some i ↦
        let system = k.scheduler.system in
        elim (vmm_switch_kernel_page_directory (slot system i).kernel_stack system.pmm) [
          | none ↦ unending
          | some pmm ↦ end_process i regs k pmm
        ]
  ]

  -- The entry of the table `syscalls`.
  pub syscalls : ℕ → (ℕ → List ℕ) → ℕ → Registers → Kernel → Served ℕ
  syscalls garbage string_at number =
      if number == 0
      then syscall_read garbage
      else if number == 1
      then syscall_write string_at
      else syscall_exit

  -- The result of the call is not looked at.
  abbrev pub ignored : Served ℕ → Served Bool
  ignored waits = waits
  ignored faults = faults
  ignored unending = unending
  ignored (answered code regs k) = answered true regs k
  ignored (gone s) = gone s

  -- `false` for a number that is no call.
  pub syscall_handler : ℕ → (ℕ → List ℕ) → Registers → Kernel → Served Bool
  syscall_handler garbage string_at regs k =
      if leb syscall_count regs.eax
      then answered false regs k
      else ignored (syscalls garbage string_at regs.eax regs k)
