-- ===== src/Cpu/Examples.antt =====
-- The theorems about the tables of the processor and the interrupts.
mod Requests
use minios_grub_bootloader.Base.{
  ℕ, zero, suc, ◌+◌, ◌-◌, ◌*◌, ◌/◌, ◌%◌, ◌^◌, ◌≤◌, ◌<◌, min, bit_and, bit_or, ◌≡◌, refl, sym, ap,
  ap₂, ◌∙◌, ◌≢◌, ◌↔◌, ◌⊎◌, inl, inr, Bool, true, false, not, ◌&&◌, ◌||◌, Option, none, some, List,
  [], ◌∷◌, ◌++◌, map, append-nil, append_assoc, arith, ltb, leb, ◌==◌, if◌then◌else◌, Bool-cases,
  Option-cases, u8, u16, u32, ◌<<<◌, ◌>>>◌, length, get_elem?, get_or, set, take, drop, replicate,
}
use minios_grub_bootloader.Cpu.Gdt.{Gdt, zeroed_entry, gdt_set_gate}
use minios_grub_bootloader.Cpu.Gdt.Fields.{Describes, gdt_set_gate-Describes}
use minios_grub_bootloader.Cpu.Idt.{zeroed_gate, idt_init}
use minios_grub_bootloader.Cpu.Idt.Gates.{Leads, idt_init-Leads}
use minios_grub_bootloader.Cpu.Pic.{timer_writes}
use minios_grub_bootloader.Cpu.Pic.Rate.{Programs, timer_writes-Programs}

abbrev gdt : Gdt
gdt = record {
  gdt_entries = replicate 5 zeroed_entry;
  gdt_ptr = record { limit = 39; base = 0x1000 };
}

-- The user data segment, with another base.
gdt_set_gate-Describes_example :
    Describes 0x12345678 0xFFFFFFFF 0xF2 0xCF
      (get_or (gdt_set_gate 4 0x12345678 0xFFFFFFFF 0xF2 0xCF gdt).gdt_entries 4 zeroed_entry)
    × ((k : ℕ)
        → 4 ≢ k
        → get_or (gdt_set_gate 4 0x12345678 0xFFFFFFFF 0xF2 0xCF gdt).gdt_entries k zeroed_entry
          ≡ get_or gdt.gdt_entries k zeroed_entry)
    × ((gdt_set_gate 4 0x12345678 0xFFFFFFFF 0xF2 0xCF gdt).gdt_ptr ≡ gdt.gdt_ptr)
gdt_set_gate-Describes_example =
    gdt_set_gate-Describes 4 0x12345678 0xFFFFFFFF 0xF2 0xCF gdt (omega arith) (omega arith)
      (omega arith)

abbrev handlers : ℕ → ℕ
handlers n = 0x100000 + n % 256 * 16

idt_init-Leads_example : Leads handlers 128 (get_or (idt_init 0x2000 handlers []).1 128 zeroed_gate)
idt_init-Leads_example = idt_init-Leads 0x2000 handlers [] (λ n. omega arith) 128

-- The frequency that the kernel uses.
timer_writes-Programs_example : Programs 20 (timer_writes 20)
timer_writes-Programs_example = timer_writes-Programs 20 (omega arith) (omega arith)
