-- ===== src/Cpu/Gdt.antt =====
-- The segment descriptors, kernel/src/cpu/gdt.c with kernel/include/cpu/gdt.h. `gdt_flush` is
-- assembly code, which gets the address of the pointer; its effect is left out.
pub mod Fields
use minios_grub_bootloader.Base.{
  ℕ, zero, suc, ◌+◌, ◌-◌, ◌*◌, ◌/◌, ◌%◌, ◌^◌, ◌≤◌, ◌<◌, min, bit_and, bit_or, ◌≡◌, refl, sym, ap,
  ap₂, ◌∙◌, ◌≢◌, ◌↔◌, ◌⊎◌, inl, inr, Bool, true, false, not, ◌&&◌, ◌||◌, Option, none, some, List,
  [], ◌∷◌, ◌++◌, map, append-nil, append_assoc, arith, ltb, leb, ◌==◌, if◌then◌else◌, Bool-cases,
  Option-cases, u8, u16, u32, ◌<<<◌, ◌>>>◌, length, get_elem?, get_or, set, take, drop, replicate,
}

-- GDT_ENTRIES
abbrev pub gdt_count : ℕ
gdt_count = 5

-- `GDT_Entry`
pub record GdtEntry : Type 0 where
  pub limit : ℕ
  pub base_low : ℕ
  pub base_middle : ℕ
  pub access : ℕ
  pub flags : ℕ
  pub base_high : ℕ

abbrev pub zeroed_entry : GdtEntry
zeroed_entry = record {
  limit = 0;
  base_low = 0;
  base_middle = 0;
  access = 0;
  flags = 0;
  base_high = 0;
}

-- `GDT_Ptr`
pub record GdtPtr : Type 0 where
  pub limit : ℕ
  pub base : ℕ

-- The static variables.
pub record Gdt : Type 0 where
  pub gdt_entries : List GdtEntry
  pub gdt_ptr : GdtPtr

-- The descriptor that `gdt_set_gate` stores: it assigns every field.
unfoldable pub descriptor : ℕ → ℕ → ℕ → ℕ → GdtEntry
descriptor base limit access flags = record {
  limit = bit_and limit 0xFFFF;
  base_low = bit_and base 0xFFFF;
  base_middle = bit_and (base >>> 16) 0xFF;
  access = access;
  flags = bit_or (bit_and (limit >>> 16) 0x0F) (bit_and flags 0xF0);
  base_high = bit_and (base >>> 24) 0xFF;
}

pub gdt_set_gate : ℕ → ℕ → ℕ → ℕ → ℕ → Gdt → Gdt
gdt_set_gate num base limit access flags g = record g {
  gdt_entries = set g.gdt_entries num (descriptor base limit access flags);
}

-- `address` is that of the array; an entry has 8 bytes.
pub gdt_init : ℕ → Gdt → Gdt
gdt_init address g =
    let g0 = record g { gdt_ptr = record { limit = 8 * gdt_count - 1; base = address } } in
    let g1 = gdt_set_gate 0 0 0 0 0 g0 in
    let g2 = gdt_set_gate 1 0 0xFFFFFFFF 0x9A 0xCF g1 in
    let g3 = gdt_set_gate 2 0 0xFFFFFFFF 0x92 0xCF g2 in
    let g4 = gdt_set_gate 3 0 0xFFFFFFFF 0xFA 0xCF g3 in gdt_set_gate 4 0 0xFFFFFFFF 0xF2 0xCF g4
