-- ===== src/Cpu/Irq/Requests.antt =====
-- What an interrupt does with the keyboard, the scheduler and the controllers, in irq.c and timer.c.
use minios_grub_bootloader.Base.{
  ℕ, ◌-◌, ◌<◌, bit_and, ◌≡◌, refl, List, Option, none, some, [], ◌∷◌, ◌++◌, arith, leb,
  if◌then◌else◌, length, get_or, set, get_or-set_self, codes,
}
use minios_grub_bootloader.Tty.{put_bytes}
use minios_grub_bootloader.Keyboard.{keyboard_handler, character}
use minios_grub_bootloader.Keyboard.Queue.{
  IsValid, pending, pending_count, is_press, pending-keyboard_handler,
}
use minios_grub_bootloader.Scheduler.{Scheduler, switched, halted}
use minios_grub_bootloader.Cpu.Pic.{Writes}
use minios_grub_bootloader.Cpu.Irq.{
  IrqHandler, Machine, Interrupted, timer, keyboard, resumed, stays, outb, irq_install_handler,
  keyboard_init, acknowledge, run_handler, acknowledged, irq_handler,
}

-- The ends of interrupt that a request is due: both controllers for the lines of the second one.
abbrev pub due : ℕ → Writes
due int_no = if leb 40 int_no then (0xA0, 0x20) ∷ (0x20, 0x20) ∷ [] else (0x20, 0x20) ∷ []

-- What the scheduler prints when it halts.
abbrev pub halt_text : List ℕ
halt_text = codes "System halted!\nReason: There is not a single running process\n"

abbrev pub halt_machine : Machine → Machine
halt_machine m = record m {
  kernel = record m.kernel { terminal = put_bytes halt_text m.kernel.terminal };
}

-- A request that goes back has written its ends of interrupt; one that does not go back has written
-- nothing, and comes from the scheduler, which prints only when it halts.
pub data IsServed (int_no : ℕ) (m : Machine) : Interrupted → Type 0 where
  goes_back :
      {m' : Machine}
      → m'.written ≡ m.written ++ due int_no
      → m'.kernel.terminal ≡ m.kernel.terminal
      → IsServed int_no m (resumed m')
  switches :
      {s : Scheduler}
      → get_or m.irq_routines (int_no - 32) none ≡ some timer
      → IsServed int_no m (stays (switched s) m)
  halted_there :
      {s : Scheduler} {m' : Machine}
      → get_or m.irq_routines (int_no - 32) none ≡ some timer
      → m'.written ≡ m.written
      → m'.kernel.terminal ≡ put_bytes halt_text m.kernel.terminal
      → IsServed int_no m (stays (halted s) m')

abbrev routines_of : Option Machine → List (Option IrqHandler)
routines_of none = []
routines_of (some m) = m.irq_routines

module _ (switch_context : ℕ → Scheduler → Option Scheduler) (inb : ℕ → ℕ) where
  -- After `keyboard_init` on a table of 16 routines, while fewer than 255 characters wait and the
  -- indices are in the buffer: the request of the keyboard goes back, it leaves the waiting
  -- characters with the one of a key that is pressed behind them, or as they were for every other
  -- interrupt, it leaves the scheduler alone, and it is acknowledged once.
  pub irq_handler-keyboard_init :
      (m : Machine)
      → length m.irq_routines ≡ 16
      → IsValid m.kernel.keyboard
      → pending_count m.kernel.keyboard < 255
      → (m' : Machine) × (irq_handler switch_context inb 33 (keyboard_init m) ≡ resumed m')
        × (pending m'.kernel.keyboard ≡ (
            if is_press (inb 0x64) (inb 0x60)
            then pending m.kernel.keyboard
              ++ (character m.kernel.keyboard (bit_and (inb 0x60) 0x7F) ∷ [])
            else pending m.kernel.keyboard))
        × (m'.kernel.scheduler ≡ m.kernel.scheduler)
        × (m'.written ≡ m.written ++ ((0x20, 0x20) ∷ []))
  unfolding irq_handler acknowledged run_handler keyboard_init irq_install_handler acknowledge outb
  irq_handler-keyboard_init m long v room =
      let installed : get_or (set m.irq_routines 1 (some keyboard)) 1 none ≡ some keyboard =
        get_or-set_self m.irq_routines 1 (some keyboard) none (omega (arith, long)) in
      let keys = keyboard_handler (inb 0x64) (inb 0x60) m.kernel.keyboard in
      (
        acknowledge 33 (record (keyboard_init m) { kernel = record m.kernel { keyboard = keys } }),
        rw (irq_handler, installed) refl,
        pending-keyboard_handler (inb 0x64) (inb 0x60) m.kernel.keyboard v room,
        refl,
        refl,
      )
