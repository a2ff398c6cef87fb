-- ===== src/Cpu/Idt.antt =====
-- The interrupt gates, kernel/src/cpu/idt.c with kernel/include/cpu/idt.h. The handlers are labels of
-- interrupts.s: their addresses are an argument. `idt_flush` is assembly code, which loads the pointer.
pub mod Gates
use minios_grub_bootloader.Base.{
  ℕ, zero, suc, ◌+◌, ◌-◌, ◌*◌, ◌/◌, ◌%◌, ◌^◌, ◌≤◌, ◌<◌, min, bit_and, bit_or, ◌≡◌, refl, sym, ap,
  ap₂, ◌∙◌, ◌≢◌, ◌↔◌, ◌⊎◌, inl, inr, Bool, true, false, not, ◌&&◌, ◌||◌, Option, none, some, List,
  [], ◌∷◌, ◌++◌, map, append-nil, append_assoc, arith, ltb, leb, ◌==◌, if◌then◌else◌, Bool-cases,
  Option-cases, u8, u16, u32, ◌<<<◌, ◌>>>◌, length, get_elem?, get_or, set, take, drop, replicate,
}

-- IDT_SIZE
abbrev pub idt_size : ℕ
idt_size = 256

-- `IDT_Entry`
pub record IdtEntry : Type 0 where
  pub offset_low : ℕ
  pub selector : ℕ
  pub zero : ℕ
  pub flags : ℕ
  pub offset_high : ℕ

-- What `memset` leaves.
abbrev pub zeroed_gate : IdtEntry
zeroed_gate = record { offset_low = 0; selector = 0; zero = 0; flags = 0; offset_high = 0 }

-- `IDT_Ptr`
pub record IdtPtr : Type 0 where
  pub limit : ℕ
  pub base : ℕ

unfoldable pub gate : ℕ → ℕ → ℕ → IdtEntry
gate handler selector flags = record {
  offset_low = bit_and handler 0xFFFF;
  selector = selector;
  zero = 0;
  flags = flags;
  offset_high = bit_and (handler >>> 16) 0xFFFF;
}

pub idt_set_gate : ℕ → ℕ → ℕ → ℕ → List IdtEntry → List IdtEntry
idt_set_gate num handler selector flags entries = set entries num (gate handler selector flags)

-- The run of calls of `idt_set_gate` for `left` numbers from `num` on.
pub set_gates : (ℕ → ℕ) → ℕ → ℕ → List IdtEntry → List IdtEntry
set_gates handler_at zero num entries = entries
set_gates handler_at (suc left) num entries =
    set_gates handler_at left (num + 1) (idt_set_gate num (handler_at num) 0x08 0x8E entries)

-- The pointer that is loaded and the array, which lies at `address`. `handler_at` gives the address of
-- `isr0` to `isr31`, of `irq0` to `irq15` from 32 on, and of `isr128`. An entry has 8 bytes.
pub idt_init : ℕ → (ℕ → ℕ) → List IdtEntry → IdtPtr × List IdtEntry
idt_init address handler_at entries =
    let cleared = replicate idt_size zeroed_gate in
    let exceptions = set_gates handler_at 32 0 cleared in
    let requests = set_gates handler_at 16 32 exceptions in
    (
      record { limit = 8 * idt_size - 1; base = address },
      idt_set_gate 128 (handler_at 128) 0x08 0x8E requests,
    )
