-- ===== src/Ata/Transfer.antt =====
-- What passes the data port in a transfer, on a device that is ready for each sector.
use minios_grub_bootloader.Base.{
  ℕ, zero, suc, ◌+◌, ◌*◌, ◌/◌, ◌^◌, ◌<◌, bit_and, bit_or, ◌≡◌, refl, sym, ap, ◌∙◌, true, false,
  some, List, [], ◌∷◌, ◌++◌, append-nil, append_assoc, arith, ◌==◌, drop, test_of_ne, ◌≢◌, ◌≤◌, ◌%◌,
  inl, inr, Bool-cases, eq_of_test, ne_of_test, ltb, u16, length,
}
use minios_grub_bootloader.Ata.{
  word_bytes, ata_secondary_devctl, wait_sector, send_command, pata_pio_wait_bsy, pata_pio_wait_drq,
  byte_at, Ports, pata_pio_delay, wait_bsy_loop, wait_drq_loop, write_words, write_loop,
  pata_pio_write_sectors,
}
use minios_grub_bootloader.Disk.{sector_size}

-- A drive behind the ports of `io_base`: the words that have been sent to it, how many it still expects,
-- and for how many reads of its status it stays busy, always fewer than `limit`. It asks for data while
-- it is not busy and expects words, a word must be sent only then, and it gets busy only when it has a
-- whole sector or a new command.
pub record IsDrive {S : Type 0} (ports : Ports S) (polls io_base limit : ℕ) (sent : S → List ℕ)
    (expects busy : S → ℕ) : Type 0 where
  pub busy_lt : (s : S) → busy s < limit
  pub status_busy : (s : S) → 0 < busy s → (bit_and (ports.inb (io_base + 7) s).0 0x80 == 0) ≡ false
  pub status_idle : (s : S) → busy s ≡ 0 → (bit_and (ports.inb (io_base + 7) s).0 0x80 == 0) ≡ true
  pub status_asks :
      (s : S)
      → busy s ≡ 0
      → 0 < expects s
      → (bit_and (ports.inb (io_base + 7) s).0 0x08 == 0) ≡ false
  pub status_counts : (s : S) → 0 < busy s → busy (ports.inb (io_base + 7) s).1 < busy s
  pub inb_keeps : (port : ℕ) (s : S) → sent (ports.inb port s).1 ≡ sent s
  pub inb_expects : (port : ℕ) (s : S) → expects (ports.inb port s).1 ≡ expects s
  pub inb_busy : (port : ℕ) (s : S) → busy (ports.inb port s).1 ≤ busy s
  pub outb_keeps : (port value : ℕ) (s : S) → sent (ports.outb port value s) ≡ sent s
  pub outw_sends :
      (word : ℕ) (s : S)
      → busy s ≡ 0
      → 0 < expects s
      → (sent (ports.outw io_base word s) ≡ sent s ++ (word ∷ []))
        × (expects (ports.outw io_base word s) + 1 ≡ expects s)
  pub outw_busy :
      (word : ℕ) (s : S)
      → busy s ≡ 0
      → expects (ports.outw io_base word s) % 256 ≢ 0
      → busy (ports.outw io_base word s) ≡ 0
  pub starts :
      (drive lba count : ℕ) (s : S)
      → 0 < count
      → count < 256
      → expects (send_command ports polls io_base drive lba count 0x30 s) ≡ 256 * count

-- The words that the inner loop makes of a buffer: two neighbouring bytes at each place.
pub neighbours : ℕ → ℕ → List ℕ → List ℕ
neighbours zero j buffer = []
neighbours (suc left) j buffer =
    bit_or (byte_at buffer j) (byte_at buffer (j + 1) * 2 ^ 8) ∷ neighbours left (j + 1) buffer

-- The bytes that a drive stores for some words, and for those that are sent for a sector.
abbrev words_bytes : List ℕ → List ℕ
words_bytes [] = []
words_bytes (word ∷ words) = word_bytes word ++ words_bytes words

abbrev pub sector_image : List ℕ → List ℕ
sector_image buffer = words_bytes (neighbours (sector_size / 2) 0 buffer)

length-words_bytes :
    (left j : ℕ) (buffer : List ℕ) → length (words_bytes (neighbours left j buffer)) ≡ left * 2
unfolding neighbours
length-words_bytes zero j buffer = refl
length-words_bytes (suc left) j buffer = omega (arith, length-words_bytes left (j + 1) buffer)

pub length-sector_image : (buffer : List ℕ) → length (sector_image buffer) ≡ sector_size
length-sector_image buffer = length-words_bytes (sector_size / 2) 0 buffer

-- Those of each sector.
pub sent_words : ℕ → List ℕ → List ℕ
sent_words zero buffer = []
sent_words (suc left) buffer =
    neighbours (sector_size / 2) 0 buffer ++ sent_words left (drop sector_size buffer)

module _ {S : Type 0} {ports : Ports S} {polls io_base : ℕ} {sent : S → List ℕ}
    {expects busy : S → ℕ} (r : IsDrive ports polls io_base polls sent expects busy) where
  -- A wait changes nothing but how long the drive is busy.
  record IsWaited (s s' : S) : Type 0 where
    same_sent : sent s' ≡ sent s
    same_expects : expects s' ≡ expects s
    idle : busy s' ≡ 0

  delay-keeps :
      (n : ℕ) (s : S)
      → (sent (pata_pio_delay ports polls n s) ≡ sent s)
        × (expects (pata_pio_delay ports polls n s) ≡ expects s)
  unfolding pata_pio_delay
  delay-keeps zero s = (refl, refl)
  delay-keeps (suc n) s =
      let next = (ports.inb ata_secondary_devctl s).1 in
      let more = delay-keeps n next in (more.0 ∙ r.inb_keeps _ s, more.1 ∙ r.inb_expects _ s)

  wait_bsy_loop-IsWaited :
      (n : ℕ) (s : S)
      → busy s < n
      → (s' : S) × (wait_bsy_loop ports polls n io_base s ≡ some s') × IsWaited s s'
  unfolding wait_bsy_loop
  wait_bsy_loop-IsWaited zero s h = absurd (omega arith)
  wait_bsy_loop-IsWaited (suc n) s h = elim (Bool-cases (busy s == 0)) [
    | inl idle ↦
        let none_left = eq_of_test _ _ idle in
        (
          (ports.inb (io_base + 7) s).1,
          rw (wait_bsy_loop, r.status_idle s none_left) refl,
          record {
            same_sent = r.inb_keeps _ s;
            same_expects = r.inb_expects _ s;
            idle = omega (arith, r.inb_busy (io_base + 7) s, none_left);
          },
        )
    | inr waits ↦
        let some_left : 0 < busy s = omega (arith, ne_of_test _ _ waits) in
        let (s', e, w) =
          wait_bsy_loop-IsWaited n (ports.inb (io_base + 7) s).1
            (omega (arith, r.status_counts s some_left)) in
        (
          s',
          rw (wait_bsy_loop, r.status_busy s some_left) e,
          record {
            same_sent = w.same_sent ∙ r.inb_keeps _ s;
            same_expects = w.same_expects ∙ r.inb_expects _ s;
            idle = w.idle;
          },
        )
  ]

  wait_bsy-IsWaited :
      (s : S) → (s' : S) × (pata_pio_wait_bsy ports polls io_base s ≡ some s') × IsWaited s s'
  unfolding pata_pio_wait_bsy
  wait_bsy-IsWaited s = wait_bsy_loop-IsWaited polls s (r.busy_lt s)

  wait_drq_loop-IsWaited :
      (n : ℕ) (s : S)
      → 0 < n
      → busy s ≡ 0
      → 0 < expects s
      → (s' : S) × (wait_drq_loop ports polls n io_base s ≡ some s') × IsWaited s s'
  unfolding wait_drq_loop
  wait_drq_loop-IsWaited zero s h idle more = absurd (omega arith)
  wait_drq_loop-IsWaited (suc n) s h idle more = (
    (ports.inb (io_base + 7) s).1,
    rw (wait_drq_loop, r.status_asks s idle more) refl,
    record {
      same_sent = r.inb_keeps _ s;
      same_expects = r.inb_expects _ s;
      idle = omega (arith, r.inb_busy (io_base + 7) s);
    },
  )

  wait_drq-IsWaited :
      (s : S)
      → busy s ≡ 0
      → 0 < expects s
      → (s' : S) × (pata_pio_wait_drq ports polls io_base s ≡ some s') × IsWaited s s'
  unfolding pata_pio_wait_drq
  wait_drq-IsWaited s idle more =
      wait_drq_loop-IsWaited polls s (omega (arith, r.busy_lt s)) idle more

  wait_sector-IsWaited :
      (s : S)
      → 0 < expects s
      → (s' : S) × (wait_sector ports polls io_base s ≡ some s') × IsWaited s s'
  wait_sector-IsWaited s more =
      let kept = delay-keeps 4 s in
      let (s1, e1, w1) = wait_bsy-IsWaited (pata_pio_delay ports polls 4 s) in
      let (s2, e2, w2) = wait_drq-IsWaited s1 w1.idle (omega (arith, w1.same_expects, kept.1)) in
      (
        s2,
        rw (wait_sector, e1) e2,
        record {
          same_sent = w2.same_sent ∙ w1.same_sent ∙ kept.0;
          same_expects = w2.same_expects ∙ w1.same_expects ∙ kept.1;
          idle = w2.idle;
        },
      )

  -- The rest of a sector, in front of `k` more.
  write_words-sent :
      (left j k : ℕ) (buffer : List ℕ) (s : S)
      → left ≤ 256
      → (left ≢ 0 → busy s ≡ 0)
      → expects s ≡ left + 256 * k
      → (sent (write_words ports polls left j io_base buffer s)
          ≡ sent s ++ neighbours left j buffer)
        × (expects (write_words ports polls left j io_base buffer s) ≡ 256 * k)
  unfolding write_words neighbours
  write_words-sent zero j k buffer s few idle e = (sym (append-nil (sent s)), omega (arith, e))
  write_words-sent (suc left) j k buffer s few idle e =
      let word = bit_or (byte_at buffer j) (byte_at buffer (j + 1) * 2 ^ 8) in
      let now : busy s ≡ 0 = idle (λ z. omega (arith, z)) in
      let one = r.outw_sends word s now (omega (arith, e)) in
      let after = ports.outw io_base word s in
      let rest =
        write_words-sent left (j + 1) k buffer after (omega arith)
          (λ ne. r.outw_busy word s now (λ z. omega (arith, z, ne, one.1, e)))
          (omega (arith, one.1, e)) in
      (
        rest.0
            ∙ ap (λ l. l ++ neighbours left (j + 1) buffer) one.0
            ∙ append_assoc (sent s) (word ∷ []) (neighbours left (j + 1) buffer),
        rest.1,
      )

  commanded :
      (drive lba count command : ℕ) (s : S)
      → sent (send_command ports polls io_base drive lba count command s) ≡ sent s
  commanded drive lba count command s =
      r.outb_keeps _ _ _
      ∙ r.outb_keeps _ _ _
      ∙ r.outb_keeps _ _ _
      ∙ r.outb_keeps _ _ _
      ∙ r.outb_keeps _ _ _
      ∙ r.outb_keeps _ _ s

  -- The sectors from `i` on.
  write_loop-sent :
      (turns i left : ℕ) (buffer : List ℕ) (s : S)
      → left < turns
      → i + left < 2 ^ 16
      → expects s ≡ 256 * left
      → (s' : S) × (write_loop ports polls turns i (i + left) io_base buffer s ≡ some s')
        × (sent s' ≡ sent s ++ sent_words left buffer)
  unfolding write_loop sent_words
  write_loop-sent zero i left buffer s enough fits e = absurd (omega arith)
  write_loop-sent (suc turns) i zero buffer s enough fits e =
      let past : ltb i (i + 0) ≡ false = ground arith in
      (s, rw (write_loop, past) refl, sym (append-nil (sent s)))
  write_loop-sent (suc turns) i (suc left) buffer s enough fits e =
      let inside : ltb i (i + suc left) ≡ true = ground arith in
      let (s1, e1, w) = wait_sector-IsWaited s (omega (arith, e)) in
      let words = neighbours (sector_size / 2) 0 buffer in
      let after = write_words ports polls (sector_size / 2) 0 io_base buffer s1 in
      let sector =
        write_words-sent (sector_size / 2) 0 left buffer s1 (omega arith) (λ ne. w.idle)
          (omega (arith, w.same_expects, e)) in
      let (s2, e2, k2) =
        write_loop-sent turns (i + 1) left (drop sector_size buffer) after (omega arith)
          (omega arith) sector.1 in
      let next : u16 (i + 1) ≡ i + 1 = omega arith in
      let same : i + suc left ≡ i + 1 + left = omega arith in
      (
        s2,
        rw (write_loop, inside, e1, next, same) e2,
        k2
            ∙ ap (λ l. l ++ sent_words left (drop sector_size buffer))
                (sector.0 ∙ ap (λ l. l ++ words) w.same_sent)
            ∙ append_assoc (sent s) words (sent_words left (drop sector_size buffer)),
      )

  -- On a drive whose times of being busy are shorter than the polls, for 1 to 255 sectors:
  -- `pata_pio_write_sectors` succeeds, and the words that it sends for each sector of the buffer are made
  -- of its bytes 0 and 1, 1 and 2, and so on up to 255 and 256.
  pub pata_pio_write_sectors_sends :
      (drive lba count : ℕ) (buffer : List ℕ) (s : S)
      → 0 < count
      → count < 256
      → (s' : S) × (pata_pio_write_sectors ports polls io_base drive lba count buffer s
          ≡ some (true, s'))
        × (sent s' ≡ sent s ++ sent_words count buffer)
  unfolding pata_pio_write_sectors
  pata_pio_write_sectors_sends drive lba count buffer s some_sectors few =
      let start = send_command ports polls io_base drive lba count 0x30 s in
      let (s1, e1, k1) =
        write_loop-sent (2 ^ 16) 0 count buffer start (omega arith) (omega arith)
          (r.starts drive lba count s some_sectors few) in
      let whole : 0 + count ≡ count = omega arith in
      let written = rw whole at e1 in
      let (s2, e2, w2) = wait_bsy-IsWaited s1 in
      let flushed = ports.outb (io_base + 7) 0xE7 s2 in
      let (s3, e3, w3) = wait_bsy-IsWaited flushed in
      (
        s3,
        rw (pata_pio_write_sectors, test_of_ne count 0 (omega arith), written, e2, e3) refl,
        w3.same_sent
            ∙ r.outb_keeps (io_base + 7) 0xE7 s2
            ∙ w2.same_sent
            ∙ k1
            ∙ ap (λ l. l ++ sent_words count buffer) (commanded drive lba count 0x30 s),
      )
