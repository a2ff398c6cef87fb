-- ===== src/Cpu/Gdt/Fields.antt =====
-- What the processor reads out of a descriptor that `gdt_set_gate` stores.
use minios_grub_bootloader.Base.{
  bit_or_fields, bit_or_comm, get_or-set_ne, bit_and_mask, get_or-set_self, bit_and_high, ℕ, ◌+◌,
  ◌*◌, ◌/◌, ◌%◌, ◌^◌, ◌<◌, bit_and, bit_or, ◌≡◌, refl, ap, ◌∙◌, ◌≢◌, arith, length, get_or,
}
use minios_grub_bootloader.Cpu.Gdt.{GdtEntry, Gdt, zeroed_entry, descriptor, gdt_set_gate}

-- The 32-bit base of a segment.
abbrev pub base_of : GdtEntry → ℕ
base_of e = e.base_low + e.base_middle * 2 ^ 16 + e.base_high * 2 ^ 24

-- The 20-bit limit.
abbrev pub limit_of : GdtEntry → ℕ
limit_of e = e.limit + e.flags % 16 * 2 ^ 16

-- A nibble and a high nibble that are disjoint.
nibbles : (low f : ℕ) → low < 16 → f < 256 → bit_or low (bit_and f 0xF0) ≡ f / 16 * 16 + low
nibbles low f a b =
    ap (bit_or low) (bit_and_high f)
    ∙ bit_or_comm low (f / 16 % 16 * 16)
    ∙ bit_or_fields 4 (f / 16 % 16) low a
    ∙ omega arith

-- What `gdt_set_gate` stores is a descriptor.
pub record Describes (base limit access flags : ℕ) (e : GdtEntry) : Type 0 where
  pub whole_base : base_of e ≡ base
  pub low_limit : limit_of e ≡ limit % 2 ^ 20
  pub same_access : e.access ≡ access
  pub same_flags : e.flags / 16 ≡ flags / 16

descriptor-Describes :
    (base limit access flags : ℕ)
    → base < 2 ^ 32
    → flags < 2 ^ 8
    → Describes base limit access flags (descriptor base limit access flags)
unfolding descriptor
descriptor-Describes base limit access flags b f =
    let low = bit_and_mask 4 (limit / 2 ^ 16) in
    let fields = nibbles (bit_and (limit / 2 ^ 16) 0x0F) flags (omega (arith, low)) f in
    record {
      whole_base = omega (
        arith,
        bit_and_mask 16 base,
        bit_and_mask 8 (base / 2 ^ 16),
        bit_and_mask 8 (base / 2 ^ 24),
      );
      low_limit = omega (arith, fields, low, bit_and_mask 16 limit);
      same_access = refl;
      same_flags = omega (arith, fields, low);
    }

-- For a base of 32 bits and flags of 8 bits: after `gdt_set_gate` of an entry of the table the
-- processor finds there the base, the 20 low bits of the limit, the access byte and the four high
-- flags that were passed, and every other entry and the pointer are as before.
pub gdt_set_gate-Describes :
    (num base limit access flags : ℕ) (g : Gdt)
    → num < length g.gdt_entries
    → base < 2 ^ 32
    → flags < 2 ^ 8
    → Describes base limit access flags
        (get_or (gdt_set_gate num base limit access flags g).gdt_entries num zeroed_entry)
      × ((k : ℕ)
          → num ≢ k
          → get_or (gdt_set_gate num base limit access flags g).gdt_entries k zeroed_entry
            ≡ get_or g.gdt_entries k zeroed_entry)
      × ((gdt_set_gate num base limit access flags g).gdt_ptr ≡ g.gdt_ptr)
unfolding gdt_set_gate
gdt_set_gate-Describes num base limit access flags g inside b f = (
  rw (get_or-set_self g.gdt_entries num (descriptor base limit access flags) zeroed_entry inside)
      (descriptor-Describes base limit access flags b f),
  (λ k other. get_or-set_ne g.gdt_entries num k _ zeroed_entry other),
  refl,
)
