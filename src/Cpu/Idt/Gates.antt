-- ===== src/Cpu/Idt/Gates.antt =====
-- Where the processor goes for an interrupt after `idt_init`.
use minios_grub_bootloader.Base.{
  ℕ, zero, suc, ◌+◌, ◌*◌, ◌/◌, ◌^◌, ◌≤◌, ◌<◌, ◌≡◌, refl, sym, ap, ◌∙◌, ◌≢◌, ◌⊎◌, inl, inr, Bool,
  true, false, ◌||◌, List, arith, ltb, ◌==◌, Bool-cases, length, get_or, set, replicate,
  length-replicate, length-set, get_or-set_self, get_or-set_ne, eq_of_test, ne_of_test,
  bit_and_mask,
}
use minios_grub_bootloader.Cpu.Idt.{
  idt_size, IdtEntry, zeroed_gate, gate, idt_set_gate, set_gates, idt_init,
}

-- The address of the handler that a gate leads to.
abbrev pub offset_of : IdtEntry → ℕ
offset_of e = e.offset_low + e.offset_high * 2 ^ 16

-- The numbers that have a gate.
abbrev pub is_used : ℕ → Bool
is_used n = ltb n 48 || n == 128

pub offset_of-gate : (h s f : ℕ) → h < 2 ^ 32 → offset_of (gate h s f) ≡ h
unfolding gate
offset_of-gate h s f small = omega (arith, bit_and_mask 16 h, bit_and_mask 16 (h / 2 ^ 16))

abbrev wanted : (ℕ → ℕ) → ℕ → IdtEntry
wanted handler_at n = gate (handler_at n) 0x08 0x8E

length-set_gates :
    (handler_at : ℕ → ℕ) (left num : ℕ) (entries : List IdtEntry)
    → length (set_gates handler_at left num entries) ≡ length entries
unfolding set_gates idt_set_gate
length-set_gates handler_at zero num entries = refl
length-set_gates handler_at (suc left) num entries =
    length-set_gates handler_at left (num + 1) _ ∙ length-set entries num _

set_gates_outside :
    (handler_at : ℕ → ℕ) (left num n : ℕ) (entries : List IdtEntry)
    → (n < num) ⊎ (num + left ≤ n)
    → get_or (set_gates handler_at left num entries) n zeroed_gate ≡ get_or entries n zeroed_gate
unfolding set_gates idt_set_gate
set_gates_outside handler_at zero num n entries h = refl
set_gates_outside handler_at (suc left) num n entries h =
    set_gates_outside handler_at left (num + 1) n _ (omega arith)
    ∙ get_or-set_ne entries num n _ zeroed_gate (λ e. omega (arith, e))

set_gates_inside :
    (handler_at : ℕ → ℕ) (left num n : ℕ) (entries : List IdtEntry)
    → num ≤ n
    → n < num + left
    → num + left ≤ length entries
    → get_or (set_gates handler_at left num entries) n zeroed_gate ≡ wanted handler_at n
unfolding set_gates idt_set_gate
set_gates_inside handler_at zero num n entries p q fits = absurd (omega arith)
set_gates_inside handler_at (suc left) num n entries p q fits =
    let long = length-set entries num (wanted handler_at num) in
    elim (Bool-cases (num == n)) [
      | inl here ↦
          set_gates_outside handler_at left (num + 1) n _ (ground arith)
          ∙ ap (λ k. get_or (set entries num (wanted handler_at num)) k zeroed_gate)
              (sym (eq_of_test num n here))
          ∙ get_or-set_self entries num (wanted handler_at num) zeroed_gate (omega arith)
          ∙ ap (wanted handler_at) (eq_of_test num n here)
      | inr there ↦
          set_gates_inside handler_at left (num + 1) n _ (omega (arith, ne_of_test num n there))
            (omega arith) (omega (arith, long))
    ]

get_or-replicate : (count n : ℕ) (e : IdtEntry) → get_or (replicate count e) n e ≡ e
get_or-replicate zero n e = refl
get_or-replicate (suc count) zero e = refl
get_or-replicate (suc count) (suc n) e = get_or-replicate count n e

-- What one number leads to.
pub record Leads (handler_at : ℕ → ℕ) (n : ℕ) (e : IdtEntry) : Type 0 where
  pub used : is_used n ≡ true → offset_of e ≡ handler_at n
  pub kernel_code : is_used n ≡ true → (e.selector ≡ 0x08) × (e.flags ≡ 0x8E)
  pub absent : is_used n ≡ false → e ≡ zeroed_gate

Leads-wanted :
    (handler_at : ℕ → ℕ) (n : ℕ) (e : IdtEntry)
    → handler_at n < 2 ^ 32
    → is_used n ≡ true
    → e ≡ wanted handler_at n
    → Leads handler_at n e
unfolding gate
Leads-wanted handler_at n e small yes_used same = rw same (record {
  used = λ _. offset_of-gate (handler_at n) 0x08 0x8E small;
  kernel_code = λ _. (refl, refl);
  absent = λ no_gate. absurd (cc);
})

module _ (address : ℕ) (handler_at : ℕ → ℕ) (entries : List IdtEntry) where
  abbrev table : List IdtEntry
  table = (idt_init address handler_at entries).1

  at_syscall : get_or table 128 zeroed_gate ≡ wanted handler_at 128
  unfolding idt_init idt_set_gate
  at_syscall =
      get_or-set_self
        (set_gates handler_at 16 32 (set_gates handler_at 32 0 (replicate idt_size zeroed_gate)))
        128 (wanted handler_at 128) zeroed_gate
        (rw (length-set_gates, length-set_gates, length-replicate) (omega arith))

  elsewhere :
      (n : ℕ)
      → n ≢ 128
      → get_or table n zeroed_gate
        ≡ get_or
            (set_gates handler_at 16 32
              (set_gates handler_at 32 0 (replicate idt_size zeroed_gate)))
            n
            zeroed_gate
  unfolding idt_init idt_set_gate
  elsewhere n other = get_or-set_ne _ 128 n (wanted handler_at 128) zeroed_gate (λ e. other (sym e))

  exception : (n : ℕ) → n < 32 → get_or table n zeroed_gate ≡ wanted handler_at n
  exception n low =
      elsewhere n (λ e. omega (arith, e))
      ∙ set_gates_outside handler_at 16 32 n _ (omega arith)
      ∙ set_gates_inside handler_at 32 0 n _ (omega arith) (omega arith)
          (omega (arith, length-replicate idt_size zeroed_gate))

  request : (n : ℕ) → 32 ≤ n → n < 48 → get_or table n zeroed_gate ≡ wanted handler_at n
  request n low high =
      elsewhere n (λ e. omega (arith, e))
      ∙ set_gates_inside handler_at 16 32 n _ low (omega arith) (
          omega (
            arith,
            length-replicate idt_size zeroed_gate,
            length-set_gates handler_at 32 0 (replicate idt_size zeroed_gate),
          ))

  unused_gate : (n : ℕ) → 48 ≤ n → n ≢ 128 → get_or table n zeroed_gate ≡ zeroed_gate
  unused_gate n high other =
      elsewhere n other
      ∙ set_gates_outside handler_at 16 32 n _ (omega arith)
      ∙ set_gates_outside handler_at 32 0 n _ (omega arith)
      ∙ get_or-replicate idt_size n zeroed_gate

  -- Whatever was in the table before: when the addresses of the handlers have 32 bits, after
  -- `idt_init` the gates of the exceptions 0 to 31, of the interrupt requests 32 to 47 and of the
  -- system call 128 lead to their handlers, with the kernel's code segment and as gates of ring 0,
  -- and every other entry is zero.
  pub idt_init-Leads :
      ((n : ℕ) → handler_at n < 2 ^ 32)
      → (n : ℕ) → Leads handler_at n (get_or (idt_init address handler_at entries).1 n zeroed_gate)
  idt_init-Leads small n = elim (Bool-cases (n == 128)) [
    | inl last ↦
        let here : n ≡ 128 = eq_of_test n 128 last in
        let there : is_used n ≡ true = ground (arith, here) in
        Leads-wanted handler_at n _ (small n) there (rw here at_syscall)
    | inr other ↦ elim (Bool-cases (ltb n 32)) [
      | inl low ↦ Leads-wanted handler_at n _ (small n) (ground arith) (exception n (ground arith))
      | inr high ↦ elim (Bool-cases (ltb n 48)) [
        | inl below ↦
            Leads-wanted handler_at n _ (small n) (ground arith)
              (request n (ground arith) (ground arith))
        | inr past ↦
            let none_there : is_used n ≡ false = rw (past, other) refl in
            record {
              used = λ yes_used. absurd (cc);
              kernel_code = λ yes_used. absurd (cc);
              absent = λ _. unused_gate n (ground arith) (ne_of_test n 128 other);
            }
      ]
    ]
  ]
