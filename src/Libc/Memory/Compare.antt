-- ===== src/Libc/Memory/Compare.antt =====
-- What `memcmp` decides.
use native.Mathlib.Decide.{ℕ_discrete}
use minios_grub_bootloader.Base.{◌⊎◌, ℕ, zero, suc, ◌+◌, ◌≤◌, ◌<◌, ◌≡◌, ◌↔◌, arith, pos, negsuc}
use minios_grub_bootloader.Libc.Memory.{Bytes, memcmp_loop, memcmp}

-- From index `i` on the loop answers 0 exactly if no byte of the first block is below the byte
-- of the second, and -1 otherwise.
memcmp_loop_values :
    (left i a b : ℕ) (m : Bytes)
    → (memcmp_loop left i a b m ≡ pos 0) ⊎ (memcmp_loop left i a b m ≡ negsuc 0)
unfolding memcmp_loop
memcmp_loop_values zero i a b m = ground arith
memcmp_loop_values (suc left) i a b m = ground (arith, memcmp_loop_values left (i + 1) a b m)

memcmp_loop-zero_mp :
    (left i a b : ℕ) (m : Bytes)
    → memcmp_loop left i a b m ≡ pos 0
    → (j : ℕ) → i ≤ j
    → j < i + left
    → m (b + j) ≤ m (a + j)
unfolding memcmp_loop
memcmp_loop-zero_mp zero i a b m e j lo hi = absurd (omega arith)
memcmp_loop-zero_mp (suc left) i a b m e j lo hi =
    let step : (m (b + i) ≤ m (a + i)) × (memcmp_loop left (i + 1) a b m ≡ pos 0) = ground arith in
    elim (ℕ_discrete i j) [
      | yes same ↦ rw (← same) step.0
      | no differ ↦ memcmp_loop-zero_mp left (i + 1) a b m step.1 j (omega arith) (omega arith)
    ]

memcmp_loop-zero_mpr :
    (left i a b : ℕ) (m : Bytes)
    → ((j : ℕ) → i ≤ j → j < i + left → m (b + j) ≤ m (a + j))
    → memcmp_loop left i a b m ≡ pos 0
unfolding memcmp_loop
memcmp_loop-zero_mpr zero i a b m h = ground arith
memcmp_loop-zero_mpr (suc left) i a b m h = ground (
  arith,
  h i (omega arith) (omega arith),
  memcmp_loop-zero_mpr left (i + 1) a b m (λ j lo hi. h j (omega arith) (omega arith)),
)

-- `memcmp` answers 0 exactly when no byte of the first block is below its partner in the second,
-- also for blocks that differ, and -1 in every other case: it never answers 1.
pub memcmp_lem :
    (ptr1 ptr2 size : ℕ) (m : Bytes)
    → ((memcmp ptr1 ptr2 size m ≡ pos 0) ↔ ((j : ℕ) → j < size → m (ptr2 + j) ≤ m (ptr1 + j)))
      × ((memcmp ptr1 ptr2 size m ≡ pos 0) ⊎ (memcmp ptr1 ptr2 size m ≡ negsuc 0))
unfolding memcmp
memcmp_lem ptr1 ptr2 size m = (
  (
    λ e j hi. memcmp_loop-zero_mp size 0 ptr1 ptr2 m e j (omega arith) (omega arith),
    λ h. memcmp_loop-zero_mpr size 0 ptr1 ptr2 m (λ j lo hi. h j (omega arith)),
  ),
  memcmp_loop_values size 0 ptr1 ptr2 m,
)
