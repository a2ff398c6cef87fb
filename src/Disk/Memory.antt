-- ===== src/Disk/Memory.antt =====
-- Sectors after a write.
use minios_grub_bootloader.Base.{
  ℕ, zero, suc, ◌+◌, ◌-◌, ◌*◌, ◌≤◌, ◌<◌, ◌≡◌, refl, ap₂, ◌∙◌, ◌⊎◌, true, ◌&&◌, List, ◌++◌,
  append-nil, arith, ltb, leb, length, take, drop, take-add, drop-drop, take_all, length-drop,
  leb_of_le, ltb_of_lt, length-take, length-append,
}
use minios_grub_bootloader.Disk.{Disk, sector_size, sectors, put_sectors, IsFormatted}

pub sectors-one : (d : Disk) (lba : ℕ) → sectors d lba 1 ≡ d lba
unfolding sectors
sectors-one d lba = append-nil (d lba)

pub length-sectors :
    (d : Disk) (lba n : ℕ) → IsFormatted d → length (sectors d lba n) ≡ n * sector_size
unfolding sectors
length-sectors d lba zero f = omega arith
length-sectors d lba (suc n) f = omega (
  arith,
  length-append {0} (d lba) (sectors d (lba + 1) n),
  length-sectors d (lba + 1) n f,
  f lba,
)

pub put_sectors-one_self :
    (lba : ℕ) (b : List ℕ) (d : Disk) → length b ≡ sector_size → put_sectors lba 1 b d lba ≡ b
unfolding put_sectors
put_sectors-one_self lba b d e =
    let start : (lba - lba) * sector_size ≡ 0 = omega arith in
    rw (leb_of_le lba lba (omega arith), ltb_of_lt lba (lba + 1) (omega arith), start)
      (take_all sector_size b (omega arith))

pub put_sectors_outside :
    (lba n : ℕ) (b : List ℕ) (d : Disk) (k : ℕ)
    → (k < lba) ⊎ (lba + n ≤ k)
    → put_sectors lba n b d k ≡ d k
unfolding put_sectors
put_sectors_outside lba n b d k h = ground arith

pub put_sectors-IsFormatted :
    (lba n : ℕ) (b : List ℕ) (d : Disk)
    → length b ≡ n * sector_size
    → IsFormatted d
    → IsFormatted (put_sectors lba n b d)
unfolding put_sectors
put_sectors-IsFormatted lba n b d e f k = ground (
  arith,
  f k,
  length-take {0} sector_size (drop ((k - lba) * sector_size) b),
  length-drop {0} ((k - lba) * sector_size) b,
)

-- Sectors that lie among those that were written hold their part of the buffer.
sectors-put_sectors :
    (lba n : ℕ) (b : List ℕ) (d : Disk) (j m k : ℕ)
    → k ≡ lba + j
    → j + m ≤ n
    → length b ≡ n * sector_size
    → sectors (put_sectors lba n b d) k m ≡ take (m * sector_size) (drop (j * sector_size) b)
unfolding sectors put_sectors
sectors-put_sectors lba n b d j zero k e h size = refl
sectors-put_sectors lba n b d j (suc m) k e h size =
    let inside : (leb lba k && ltb k (lba + n)) ≡ true = ground arith in
    let start : (k - lba) * sector_size ≡ j * sector_size = omega arith in
    let count : suc m * sector_size ≡ sector_size + m * sector_size = omega arith in
    rw
      (
        inside,
        start,
        count,
        sectors-put_sectors lba n b d (j + 1) m (k + 1) (omega arith) (omega arith) size,
        take-add sector_size (m * sector_size) (drop (j * sector_size) b),
        drop-drop sector_size (j * sector_size) ((j + 1) * sector_size) b (omega arith),
      )
      refl

-- Sectors are read back as they were written.
pub sectors-put_sectors_self :
    (lba n : ℕ) (b : List ℕ) (d : Disk)
    → length b ≡ n * sector_size
    → sectors (put_sectors lba n b d) lba n ≡ b
sectors-put_sectors_self lba n b d size =
    sectors-put_sectors lba n b d 0 n lba (omega arith) (omega arith) size
    ∙ take_all (n * sector_size) b (omega arith)

-- Sectors are the same on disks that agree there.
pub sectors_ext :
    (d d' : Disk) (lba n : ℕ)
    → ((k : ℕ) → lba ≤ k → k < lba + n → d' k ≡ d k)
    → sectors d' lba n ≡ sectors d lba n
unfolding sectors
sectors_ext d d' lba zero h = refl
sectors_ext d d' lba (suc n) h =
    ap₂ ◌++◌ (h lba (omega arith) (omega arith))
      (sectors_ext d d' (lba + 1) n (λ k p q. h k (omega arith) (omega arith)))
