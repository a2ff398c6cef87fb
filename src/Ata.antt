-- ===== src/Ata.antt =====
-- The disk driver, kernel/src/drivers/pata_pio.c, over any device behind the ports. A loop that waits
-- for the device gets a number of polls, and `none` says that they were not enough. A buffer is never
-- NULL, and the messages are left out.
pub mod Transfer
mod Examples
use minios_grub_bootloader.Base.{
  byte_at, ℕ, zero, suc, ◌+◌, ◌-◌, ◌*◌, ◌/◌, ◌%◌, ◌^◌, ◌≤◌, ◌<◌, min, bit_and, bit_or, ◌≡◌, refl,
  sym, ap, ap₂, ◌∙◌, ◌≢◌, ◌↔◌, ◌⊎◌, inl, inr, Bool, true, false, not, ◌&&◌, ◌||◌, Option, none,
  some, List, [], ◌∷◌, ◌++◌, map, append-nil, append_assoc, arith, ltb, leb, ◌==◌, if◌then◌else◌,
  Bool-cases, Option-cases, u8, u16, u32, ◌<<<◌, ◌>>>◌, length, get_elem?, get_or, set, take, drop,
  replicate,
}
use minios_grub_bootloader.Disk.{sector_size}

-- The port instructions of x86.s, on the state of the device.
pub record Ports (S : Type 0) : Type 0 where
  pub inb : ℕ → S → ℕ × S
  pub inw : ℕ → S → ℕ × S
  pub outb : ℕ → ℕ → S → S
  pub outw : ℕ → ℕ → S → S

abbrev pub ata_primary_io : ℕ
ata_primary_io = 0x1F0

abbrev pub ata_secondary_io : ℕ
ata_secondary_io = 0x170

abbrev pub ata_secondary_devctl : ℕ
ata_secondary_devctl = 0x376

pub record Drives : Type 0 where
  pub primary_master : ℕ
  pub primary_slave : ℕ
  pub secondary_master : ℕ
  pub secondary_slave : ℕ

-- The two bytes of a word, in the order of memory.
abbrev pub word_bytes : ℕ → List ℕ
word_bytes word = word % 2 ^ 8 ∷ word / 2 ^ 8 % 2 ^ 8 ∷ []

module _ {S : Type 0} (ports : Ports S) (polls : ℕ) where
  pub pata_pio_delay : ℕ → S → S
  pata_pio_delay zero s = s
  pata_pio_delay (suc delay) s = pata_pio_delay delay (ports.inb ata_secondary_devctl s).1

  wait_bsy_loop : ℕ → ℕ → S → Option S
  wait_bsy_loop zero io_base s = none
  wait_bsy_loop (suc left) io_base s =
      let (status, s') = ports.inb (io_base + 7) s in
      let rest = wait_bsy_loop left io_base s' in if bit_and status 0x80 == 0 then some s' else rest

  pub pata_pio_wait_bsy : ℕ → S → Option S
  pata_pio_wait_bsy io_base s = wait_bsy_loop polls io_base s

  wait_drq_loop : ℕ → ℕ → S → Option S
  wait_drq_loop zero io_base s = none
  wait_drq_loop (suc left) io_base s =
      let (status, s') = ports.inb (io_base + 7) s in
      let rest = wait_drq_loop left io_base s' in if bit_and status 0x08 == 0 then rest else some s'

  pub pata_pio_wait_drq : ℕ → S → Option S
  pata_pio_wait_drq io_base s = wait_drq_loop polls io_base s

  -- The bytes of the first `left` reads.
  pub read_bytes : ℕ → ℕ → S → List ℕ × S
  read_bytes zero io_base s = ([], s)
  read_bytes (suc left) io_base s =
      let (c, s1) = ports.inb io_base s in let (cs, s2) = read_bytes left io_base s1 in (c ∷ cs, s2)

  -- The IDENTIFY command.
  abbrev pub send_identify : ℕ → ℕ → S → S
  send_identify io_base drive s = ports.outb (io_base + 7) 0xEC (
      ports.outb (io_base + 2) 0 (
        ports.outb (io_base + 4) 0 (
          ports.outb (io_base + 3) 0
            (ports.outb (io_base + 2) 0 (ports.outb (io_base + 6) drive s)))))

  -- The loop that waits for data or an error, and the result with the bytes that were read.
  pub identify_loop : ℕ → ℕ → S → Option (ℕ × List ℕ × S)
  identify_loop zero io_base s = none
  identify_loop (suc left) io_base s =
      let (status, s1) = ports.inb (io_base + 7) s in
      let (bytes, s2) = read_bytes 255 io_base s1 in
      let rest = identify_loop left io_base s1 in
      if not (bit_and status 0x08 == 0)
      then some (0, bytes, s2)
      else if not (bit_and status 0x01 == 0)
      then some (2, [], s1)
      else rest

  -- The result, and the first bytes of the buffer.
  pub pate_pio_identify : ℕ → ℕ → S → Option (ℕ × List ℕ × S)
  pate_pio_identify io_base drive s =
      let (status, s1) =
        ports.inb (io_base + 7) (pata_pio_delay 4 (send_identify io_base drive s)) in
      if status == 0 || status == 0xFF
      then some (1, [], s1)
      else elim (pata_pio_wait_bsy io_base s1) [
        | none ↦ none
        | some s2 ↦ identify_loop polls io_base s2
      ]

  -- `pata_pio_init` sends the same command and throws the bytes away.
  pub pata_pio_init : ℕ → ℕ → S → Option (ℕ × S)
  pata_pio_init io_base drive s = elim (pate_pio_identify io_base drive s) [
    | none ↦ none
    | some answer ↦ some (answer.0, answer.2)
  ]

  pub pata_pio_detect_drives : S → Option (Drives × S)
  pata_pio_detect_drives s = elim (pata_pio_init ata_primary_io 0xE0 s) [
    | none ↦ none
    | some (primary_master, s1) ↦ elim (pata_pio_init ata_primary_io 0xF0 s1) [
      | none ↦ none
      | some (primary_slave, s2) ↦ elim (pata_pio_init ata_secondary_io 0xE0 s2) [
        | none ↦ none
        | some (secondary_master, s3) ↦ elim (pata_pio_init ata_secondary_io 0xF0 s3) [
          | none ↦ none
          | some (secondary_slave, s4) ↦ some (
            record {
              primary_master = primary_master;
              primary_slave = primary_slave;
              secondary_master = secondary_master;
              secondary_slave = secondary_slave;
            },
            s4,
          )
        ]
      ]
    ]
  ]

  -- The registers of a transfer, and its command.
  abbrev pub send_command : ℕ → ℕ → ℕ → ℕ → ℕ → S → S
  send_command io_base drive lba count command s = ports.outb (io_base + 7) command (
      ports.outb (io_base + 5) (u8 (lba / 2 ^ 16)) (
        ports.outb (io_base + 4) (u8 (lba / 2 ^ 8)) (
          ports.outb (io_base + 3) (u8 lba) (
            ports.outb (io_base + 2) (u8 count) (
              ports.outb (io_base + 6)
                (u8 (bit_or (bit_or 0xE0 (drive * 2 ^ 4)) (bit_and (lba / 2 ^ 24) 0x0F))) s)))))

  -- The waits in front of a sector.
  abbrev pub wait_sector : ℕ → S → Option S
  wait_sector io_base s = elim (pata_pio_wait_bsy io_base (pata_pio_delay 4 s)) [
    | none ↦ none
    | some s' ↦ pata_pio_wait_drq io_base s'
  ]

  pub read_words : ℕ → ℕ → S → List ℕ × S
  read_words zero io_base s = ([], s)
  read_words (suc left) io_base s =
      let (word, s1) = ports.inw io_base s in
      let (rest, s2) = read_words left io_base s1 in (word_bytes word ++ rest, s2)

  pub read_loop : ℕ → ℕ → S → Option (List ℕ × S)
  read_loop zero io_base s = some ([], s)
  read_loop (suc left) io_base s = elim (wait_sector io_base s) [
    | none ↦ none
    | some s1 ↦
        let (sector, s2) = read_words (sector_size / 2) io_base s1 in
        elim (read_loop left io_base s2) [
          | none ↦ none
          | some (rest, s3) ↦ some (sector ++ rest, s3)
        ]
  ]

  -- The bytes of the buffer, or `none` for a result of `false`, and the device.
  pub pata_pio_read_sectors : ℕ → ℕ → ℕ → ℕ → S → Option (Option (List ℕ) × S)
  pata_pio_read_sectors io_base drive lba count s =
      if count == 0
      then some (none, s)
      else elim (read_loop count io_base (send_command io_base drive lba count 0x20 s)) [
        | none ↦ none
        | some (buffer, s') ↦ some (some buffer, s')
      ]

  -- The loop that sends a sector, from `j` on.
  pub write_words : ℕ → ℕ → ℕ → List ℕ → S → S
  write_words zero j io_base buffer s = s
  write_words (suc left) j io_base buffer s =
      let word = bit_or (byte_at buffer j) (byte_at buffer (j + 1) * 2 ^ 8) in
      write_words left (j + 1) io_base buffer (ports.outw io_base word s)

  -- The loop over the sectors, whose index has 16 bits; `none` is also the lack of turns.
  pub write_loop : ℕ → ℕ → ℕ → ℕ → List ℕ → S → Option S
  write_loop zero i count io_base buffer s = none
  write_loop (suc turns) i count io_base buffer s = elim (ltb i count) [
    | false ↦ some s
    | true ↦ elim (wait_sector io_base s) [
      | none ↦ none
      | some s1 ↦
          write_loop turns (u16 (i + 1)) count io_base (drop sector_size buffer)
            (write_words (sector_size / 2) 0 io_base buffer s1)
    ]
  ]

  -- The index takes 2^16 values: with a larger count the loop never ends.
  pub pata_pio_write_sectors : ℕ → ℕ → ℕ → ℕ → List ℕ → S → Option (Bool × S)
  pata_pio_write_sectors io_base drive lba count buffer s =
      if count == 0
      then some (false, s)
      else elim (write_loop (2 ^ 16) 0 count io_base buffer
          (send_command io_base drive lba count 0x30 s)) [
            | none ↦ none
            | some s1 ↦ elim (pata_pio_wait_bsy io_base s1) [
              | none ↦ none
              | some s2 ↦ elim (pata_pio_wait_bsy io_base (ports.outb (io_base + 7) 0xE7 s2)) [
                | none ↦ none
                | some s3 ↦ some (true, s3)
              ]
            ]
          ]
