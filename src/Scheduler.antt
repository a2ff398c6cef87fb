-- ===== src/Scheduler.antt =====
-- The scheduler, kernel/src/scheduler.c, on the system of `Process`. `switch_context` is assembly code: an
-- argument, which is given the stack pointer and the state and answers `none` when it does not come
-- back. Loading the directory of the process is left out, as in `Vmm`.
pub mod Yield
mod Examples
use minios_grub_bootloader.Libc.Strings.{CString}
use minios_grub_bootloader.Base.{
  codes, ℕ, zero, suc, ◌+◌, ◌-◌, ◌*◌, ◌/◌, ◌%◌, ◌^◌, ◌≤◌, ◌<◌, min, bit_and, bit_or, ◌≡◌, refl, sym,
  ap, ap₂, ◌∙◌, ◌≢◌, ◌↔◌, ◌⊎◌, inl, inr, Bool, true, false, not, ◌&&◌, ◌||◌, Option, none, some,
  List, [], ◌∷◌, ◌++◌, map, append-nil, append_assoc, arith, ltb, leb, ◌==◌, if◌then◌else◌,
  Bool-cases, Option-cases, u8, u16, u32, ◌<<<◌, ◌>>>◌, length, get_elem?, get_or, set, take, drop,
  replicate,
}
use minios_grub_bootloader.Process.{
  Process, System, ProcessState, unused, embryo, runnable, running, max_processes, slot,
  put_process,
}

pub record Scheduler : Type 0 where
  pub system : System
  pub current_process : Option ℕ
  pub scheduler_running : Bool

-- The scheduler is not running, a process has been switched to for good, or the system is halted, after
-- the messages of `printed`.
pub data Scheduled : Type 0 where
  returned : Scheduler → Scheduled
  switched : Scheduler → Scheduled
  halted : Scheduler → Scheduled

-- The formats of the two `kprintf`, in front of the endless loop.
abbrev pub printed : Scheduled → List CString
printed (returned s) = []
printed (switched s) = []
printed (halted s) =
    codes "System halted!\n" ∷ codes "Reason: There is not a single running process\n" ∷ []

abbrev pub is_runnable : ProcessState → Bool
is_runnable unused = false
is_runnable embryo = false
is_runnable runnable = true
is_runnable running = false

-- `current_process = &ptable.process[i]`, which is running from now on.
abbrev pub choose : ℕ → Scheduler → Scheduler
choose i s = record s {
  system = put_process i (record (slot s.system i) { state = running }) s.system;
  current_process = some i;
}

module _ (switch_context : ℕ → Scheduler → Option Scheduler) where
  -- The loop of `schedule` from slot `i` on, and the end of the function.
  pub schedule_loop : ℕ → ℕ → Scheduler → Scheduled
  schedule_loop zero i s = halted (record s { scheduler_running = false })
  schedule_loop (suc left) i s = elim (is_runnable (slot s.system i).state) [
    | false ↦ schedule_loop left (i + 1) s
    | true ↦ elim s.current_process [
      | some prev ↦ schedule_loop left (i + 1) (choose i s)
      | none ↦ elim (switch_context (slot s.system i).stack_pointer (choose i s)) [
        | none ↦ switched (choose i s)
        | some s' ↦ schedule_loop left (i + 1) s'
      ]
    ]
  ]

  pub schedule : Scheduler → Scheduled
  schedule s = if s.scheduler_running then schedule_loop max_processes 0 s else returned s

  pub scheduler_init : Scheduler → Scheduled
  scheduler_init s = schedule (record s { scheduler_running = not s.scheduler_running })

  pub yield_process : Scheduler → Scheduled
  yield_process s = schedule s
