-- ===== src/Ata/Examples.antt =====
-- The theorem about pata_pio.c on a drive that is busy for one read of its status after each sector.
use minios_grub_bootloader.Base.{
  ℕ, ◌-◌, ◌*◌, ◌%◌, ◌≡◌, refl, inl, inr, Bool-cases, true, some, List, [], ◌∷◌, ◌++◌, ◌==◌, ◌&&◌,
  if◌then◌else◌, arith, replicate,
}
use minios_grub_bootloader.Ata.{Ports, pata_pio_write_sectors}
use minios_grub_bootloader.Ata.Transfer.{IsDrive, sent_words, pata_pio_write_sectors_sends}

-- The count register, the words to come, whether it is busy, and the words so far.
record Drive : Type 0 where
  count : ℕ
  to_come : ℕ
  is_busy : ℕ
  words : List ℕ

-- Busy for one read at most.
abbrev busy_of : Drive → ℕ
busy_of s = if s.is_busy == 0 then 0 else 1

abbrev status : Drive → ℕ
status s = if s.is_busy == 0 then (if s.to_come == 0 then 0 else 8) else 0x80

abbrev drive_ports : Ports Drive
drive_ports = record {
  inb = λ port s. (status s, record s { is_busy = 0 });
  inw = λ port s. (0, s);
  outb = λ port value s.
      if port == 0x1F2
      then record s { count = value }
      else if port == 0x1F7 && value == 0x30
      then record s { to_come = 256 * s.count; is_busy = 1 }
      else s;
  outw = λ port word s. record s {
    to_come = s.to_come - 1;
    is_busy = if (s.to_come - 1) % 256 == 0 then 1 else 0;
    words = s.words ++ (word ∷ []);
  };
}

outb-words : (port value : ℕ) (s : Drive) → (drive_ports.outb port value s).words ≡ s.words
outb-words port value s = elim (Bool-cases (port == 0x1F2)) [
  | inl count ↦ rw count refl
  | inr other ↦ elim (Bool-cases (port == 0x1F7 && value == 0x30)) [
    | inl command ↦ rw (other, command) refl
    | inr nothing ↦ rw (other, nothing) refl
  ]
]

drive_ports-IsDrive : IsDrive drive_ports 2 0x1F0 2 (λ s. s.words) (λ s. s.to_come) busy_of
drive_ports-IsDrive = record {
  busy_lt = λ s. ground arith;
  status_busy = λ s h. ground arith;
  status_idle = λ s h. ground arith;
  status_asks = λ s h more. ground arith;
  status_counts = λ s h. omega arith;
  inb_keeps = λ port s. refl;
  inb_expects = λ port s. refl;
  inb_busy = λ port s. omega arith;
  outb_keeps = outb-words;
  outw_sends = λ word s idle more. (refl, omega arith);
  outw_busy = λ word s idle more. ground arith;
  starts = λ drive lba count s some_sectors few. omega arith;
}

abbrev empty : Drive
empty = record { count = 0; to_come = 0; is_busy = 0; words = [] }

pata_pio_write_sectors_sends_example :
    (s' : Drive) × (pata_pio_write_sectors drive_ports 2 0x1F0 0 7 2 (replicate 1024 3) empty
      ≡ some (true, s'))
    × (s'.words ≡ [] ++ sent_words 2 (replicate 1024 3))
pata_pio_write_sectors_sends_example =
    pata_pio_write_sectors_sends drive_ports-IsDrive 0 7 2 (replicate 1024 3) empty (omega arith)
      (omega arith)
