-- ===== src/Fat32/Table/Link/Copies.antt =====
-- The loop of `set_fat_entry` over the further copies of the table.
use minios_grub_bootloader.Base.{
  ℕ, zero, suc, ◌+◌, ◌*◌, ◌^◌, ◌≤◌, ◌<◌, ◌≡◌, refl, ◌∙◌, ◌≢◌, true, List, arith, u32, length,
}
use minios_grub_bootloader.Disk.{Disk, Driver, Stores, put_sectors}
use minios_grub_bootloader.Disk.Memory.{put_sectors-one_self, put_sectors_outside}
use minios_grub_bootloader.Fat32.Types.{Context}
use minios_grub_bootloader.Fat32.Table.{write_copies}
use native.Mathlib.Decide.{ℕ_discrete}

module _ (ctx : Context) where
  -- The disk after `left` rounds from copy `i` on.
  pub copied : ℕ → ℕ → ℕ → List ℕ → Disk → Disk
  copied zero i first sector d = d
  copied (suc left) i first sector d =
      copied left (i + 1) first sector (put_sectors (first + i * ctx.fat_size) 1 sector d)

  pub copied_outside :
      (left i first : ℕ) (sector : List ℕ) (d : Disk) (k : ℕ)
      → ((j : ℕ) → i ≤ j → j < i + left → first + j * ctx.fat_size ≢ k)
      → copied left i first sector d k ≡ d k
  unfolding copied
  copied_outside zero i first sector d k h = refl
  copied_outside (suc left) i first sector d k h =
      copied_outside left (i + 1) first sector (put_sectors (first + i * ctx.fat_size) 1 sector d) k
        (λ j p q. h j (omega arith) (omega arith))
      ∙ put_sectors_outside (first + i * ctx.fat_size) 1 sector d k
          (let apart = h i (omega arith) (omega arith) in omega arith)

  pub copied_at :
      (left i first : ℕ) (sector : List ℕ) (d : Disk) (j : ℕ)
      → 0 < ctx.fat_size
      → length sector ≡ 512
      → i ≤ j
      → j < i + left
      → copied left i first sector d (first + j * ctx.fat_size) ≡ sector
  unfolding copied
  copied_at zero i first sector d j some_size full p q = absurd (omega arith)
  copied_at (suc left) i first sector d j some_size full p q = elim (ℕ_discrete i j) [
    | yes same ↦ rw (← same) (
        copied_outside left (i + 1) first sector (put_sectors (first + i * ctx.fat_size) 1 sector d)
          (first + i * ctx.fat_size) (λ k lo hi e. grind arith)
        ∙ put_sectors-one_self (first + i * ctx.fat_size) sector d full)
    | no differ ↦
        copied_at left (i + 1) first sector (put_sectors (first + i * ctx.fat_size) 1 sector d) j
          some_size full (omega arith) (omega arith)
  ]

  -- With a driver that stores an image of the sector every copy is written.
  pub write_copies-copied :
      (drv : Driver) (image : List ℕ → List ℕ) (left i first : ℕ) (sector : List ℕ) (d : Disk)
      → Stores drv image
      → length sector ≡ 512
      → ((j : ℕ) → i ≤ j → j < i + left → first + j * ctx.fat_size < 2 ^ 28)
      → write_copies drv ctx left i first sector d ≡ (true, copied left i first (image sector) d)
  unfolding copied write_copies
  write_copies-copied drv image zero i first sector d w full fits = refl
  write_copies-copied drv image (suc left) i first sector d w full fits =
      let fit = fits i (omega arith) (omega arith) in
      let at : u32 (first + u32 (i * ctx.fat_size)) ≡ first + i * ctx.fat_size = omega arith in
      let done = w.stores (first + i * ctx.fat_size) sector d (omega arith) full in
      rw (at, done)
        (write_copies-copied drv image left (i + 1) first sector
          (put_sectors (first + i * ctx.fat_size) 1 (image sector) d) w full
          (λ j p q. fits j (omega arith) (omega arith)))
