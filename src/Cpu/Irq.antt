-- ===== src/Cpu/Irq.antt =====
-- Interrupts after the stubs of interrupts.s have built the registers: kernel/src/cpu/irq.c,
-- `timer_handler` and `timer_init` of kernel/src/drivers/timer.c and `keyboard_init` of
-- kernel/src/drivers/keyboard.c.
pub mod Requests
use minios_grub_bootloader.Base.{
  ℕ, zero, suc, ◌+◌, ◌-◌, ◌*◌, ◌/◌, ◌%◌, ◌^◌, ◌≤◌, ◌<◌, min, bit_and, bit_or, ◌≡◌, refl, sym, ap,
  ap₂, ◌∙◌, ◌≢◌, ◌↔◌, ◌⊎◌, inl, inr, Bool, true, false, not, ◌&&◌, ◌||◌, Option, none, some, List,
  [], ◌∷◌, ◌++◌, map, append-nil, append_assoc, arith, ltb, leb, ◌==◌, if◌then◌else◌, Bool-cases,
  Option-cases, u8, u16, u32, ◌<<<◌, ◌>>>◌, length, get_elem?, get_or, set, take, drop, replicate,
  codes,
}
use minios_grub_bootloader.Libc.Strings.{CString}
use minios_grub_bootloader.Tty.{Terminal}
use minios_grub_bootloader.Kprintf.Panic.{kpanic, kprintf_all}
use minios_grub_bootloader.Keyboard.{keyboard_handler}
use minios_grub_bootloader.Scheduler.{
  Scheduler, Scheduled, returned, switched, halted, printed, schedule,
}
use minios_grub_bootloader.Syscall.{Kernel}
use minios_grub_bootloader.Cpu.Pic.{Writes, timer_writes, pic1_command, pic2_command}

-- `exception_messages`
abbrev pub exception_messages : List CString
exception_messages =
    codes "Divide by zero"
    ∷ codes "Debug"
    ∷ codes "Non-maskable interrupt"
    ∷ codes "Breakpoint"
    ∷ codes "Overflow"
    ∷ codes "Bound range exceeded"
    ∷ codes "Invalid opcode"
    ∷ codes "Device not available"
    ∷ codes "Double fault"
    ∷ codes "Coprocessor segment overrun"
    ∷ codes "Invalid TSS"
    ∷ codes "Segment not present"
    ∷ codes "Stack-segment fault"
    ∷ codes "General protection fault"
    ∷ codes "Page fault"
    ∷ codes "Reserved"
    ∷ codes "x87 floating-point exception"
    ∷ codes "Alignment check"
    ∷ codes "SIMD floating-point exception"
    ∷ codes "Reserved"
    ∷ codes "Reserved"
    ∷ codes "Reserved"
    ∷ codes "Reserved"
    ∷ codes "Reserved"
    ∷ codes "Reserved"
    ∷ codes "Reserved"
    ∷ codes "Reserved"
    ∷ codes "Reserved"
    ∷ codes "Reserved"
    ∷ codes "Reserved"
    ∷ codes "Reserved"
    ∷ codes "Reserved"
    ∷ []

-- The functions that the kernel installs as `irq_handler_t`.
pub data IrqHandler : Type 0 where
  timer : IrqHandler
  keyboard : IrqHandler

-- The kernel with `irq_routines`, where `none` is a null pointer, and the writes to ports so far.
pub record Machine : Type 0 where
  pub kernel : Kernel
  pub irq_routines : List (Option IrqHandler)
  pub written : Writes

-- An interrupt goes back to what it has interrupted, or does not return: to `stays` the scheduler has
-- switched away or halted, `stopped` is the endless loop of `kpanic`.
pub data Interrupted : Type 0 where
  resumed : Machine → Interrupted
  stays : Scheduled → Machine → Interrupted
  stopped : Machine → Interrupted
  unprinted : Interrupted

pub outb : ℕ → ℕ → Machine → Machine
outb port value m = record m { written = m.written ++ ((port, value) ∷ []) }

unfoldable pub irq_install_handler : ℕ → IrqHandler → Machine → Machine
irq_install_handler num handler m = record m {
  irq_routines = set m.irq_routines num (some handler);
}

pub irq_uninstall_handler : ℕ → Machine → Machine
irq_uninstall_handler num m = record m { irq_routines = set m.irq_routines num none }

pub keyboard_init : Machine → Machine
keyboard_init m = irq_install_handler 1 keyboard m

-- `none` is the division by zero.
unfoldable pub timer_init : ℕ → Machine → Option Machine
timer_init frequency m =
    let installed = irq_install_handler 0 timer m in
    elim (timer_writes frequency) [
      | none ↦ none
      | some writes ↦ some (record installed { written = installed.written ++ writes })
    ]

-- The message lies at `address`; `unprinted` is a `kprintf` that does not return.
pub isr_handler : ℕ → ℕ → Machine → Interrupted
isr_handler address int_no m =
    if ltb int_no 32
    then elim (kpanic address (get_or exception_messages int_no []) m.kernel.terminal) [
      | none ↦ unprinted
      | some t ↦ stopped (record m { kernel = record m.kernel { terminal = t } })
    ]
    else resumed m

-- The end of an interrupt for the controllers.
pub acknowledge : ℕ → Machine → Machine
acknowledge int_no m =
    let both = if leb 40 int_no then outb pic2_command 0x20 m else m in outb pic1_command 0x20 both

-- The halt of the scheduler, with its messages on the screen.
pub halting : Scheduler → Machine → Interrupted
halting s m = elim (kprintf_all (printed (halted s)) m.kernel.terminal) [
  | none ↦ unprinted
  | some t ↦ stays (halted s) (record m { kernel = record m.kernel { terminal = t } })
]

module _ (switch_context : ℕ → Scheduler → Option Scheduler) where
  pub timer_handler : Machine → Interrupted
  timer_handler m = elim (schedule switch_context m.kernel.scheduler) [
    | returned s ↦ resumed (record m { kernel = record m.kernel { scheduler = s } })
    | switched s ↦ stays (switched s) m
    | halted s ↦ halting s m
  ]

  -- A handler, with what the ports of the keyboard give.
  pub run_handler : (ℕ → ℕ) → IrqHandler → Machine → Interrupted
  run_handler inb timer m = timer_handler m
  run_handler inb keyboard m =
      let keys = keyboard_handler (inb 0x64) (inb 0x60) m.kernel.keyboard in
      resumed (record m { kernel = record m.kernel { keyboard = keys } })

  -- The rest of `irq_handler`, when the handler has returned.
  pub acknowledged : ℕ → Interrupted → Interrupted
  acknowledged int_no (resumed m) = resumed (acknowledge int_no m)
  acknowledged int_no (stays s m) = stays s m
  acknowledged int_no (stopped m) = stopped m
  acknowledged int_no unprinted = unprinted

  -- The stubs pass the numbers 32 to 47, which index the whole array.
  pub irq_handler : (ℕ → ℕ) → ℕ → Machine → Interrupted
  irq_handler inb int_no m = elim (get_or m.irq_routines (int_no - 32) none) [
    | none ↦ resumed (acknowledge int_no m)
    | some handler ↦ acknowledged int_no (run_handler inb handler m)
  ]
