-- ===== src/Ports.antt =====
-- A device with an index port and a data port, as cmos.c and tty.c use them: a write to the index
-- port selects a register, which the data port then reads and writes.
mod Examples
use minios_grub_bootloader.Base.{ℕ, ◌<◌, ◌^◌, ◌≡◌, ◌≢◌, ◌∙◌, ap, sym, Bool, true}
use minios_grub_bootloader.Ata.{Ports}

-- The documented behaviour, for the registers that keep what is written to them.
pub record IsIndexed {S : Type 0} (ports : Ports S) (index port : ℕ) (keeps : ℕ → Bool)
    : Type 0 where
  pub selected : S → ℕ
  pub register : S → ℕ → ℕ
  pub selects : (r : ℕ) (s : S) → keeps r ≡ true → selected (ports.outb index r s) ≡ r
  pub select_keeps : (r : ℕ) (s : S) (k : ℕ) → register (ports.outb index r s) k ≡ register s k
  pub reads : (s : S) → keeps (selected s) ≡ true → (ports.inb port s).0 ≡ register s (selected s)
  pub read_keeps : (s : S) (k : ℕ) → register (ports.inb port s).1 k ≡ register s k
  pub read_selected : (s : S) → selected (ports.inb port s).1 ≡ selected s
  pub writes :
      (v : ℕ) (s : S)
      → keeps (selected s) ≡ true
      → v < 2 ^ 8
      → register (ports.outb port v s) (selected s) ≡ v
  pub write_keeps :
      (v : ℕ) (s : S) (k : ℕ) → k ≢ selected s → register (ports.outb port v s) k ≡ register s k

-- The two accesses that both drivers are made of.
abbrev pub read_at : {S : Type 0} → Ports S → ℕ → ℕ → ℕ → S → ℕ × S
read_at ports index port r s = ports.inb port (ports.outb index r s)

abbrev pub write_at : {S : Type 0} → Ports S → ℕ → ℕ → ℕ → ℕ → S → S
write_at ports index port r v s = ports.outb port v (ports.outb index r s)

module _ {S : Type 0} {ports : Ports S} {index port : ℕ} {keeps : ℕ → Bool}
    (d : IsIndexed ports index port keeps) where
  pub read_at_lem :
      (r : ℕ) (s : S) → keeps r ≡ true → (read_at ports index port r s).0 ≡ d.register s r
  read_at_lem r s k =
      let here = d.selects r s k in
      d.reads (ports.outb index r s) (ap keeps here ∙ k)
      ∙ ap (d.register (ports.outb index r s)) here
      ∙ d.select_keeps r s r

  pub read_at_keeps :
      (r : ℕ) (s : S) (k : ℕ) → d.register (read_at ports index port r s).1 k ≡ d.register s k
  read_at_keeps r s k = d.read_keeps (ports.outb index r s) k ∙ d.select_keeps r s k

  pub write_at_self :
      (r v : ℕ) (s : S)
      → keeps r ≡ true
      → v < 2 ^ 8
      → d.register (write_at ports index port r v s) r ≡ v
  write_at_self r v s k small =
      let here = d.selects r s k in
      ap (d.register (write_at ports index port r v s)) (sym here)
      ∙ d.writes v (ports.outb index r s) (ap keeps here ∙ k) small

  pub write_at_ne :
      (r v : ℕ) (s : S) (k : ℕ)
      → keeps r ≡ true
      → k ≢ r
      → d.register (write_at ports index port r v s) k ≡ d.register s k
  write_at_ne r v s k kept other =
      d.write_keeps v (ports.outb index r s) k (λ e. other (e ∙ d.selects r s kept))
      ∙ d.select_keeps r s k
