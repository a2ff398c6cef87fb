-- ===== src/Fat32/Table/Free.antt =====
-- `find_free_cluster` against the entries of the table.
use minios_grub_bootloader.Base.{
  ℕ, zero, suc, ◌+◌, ◌*◌, ◌/◌, ◌%◌, ◌^◌, ◌≤◌, ◌<◌, ◌≡◌, refl, ap₂, ◌≢◌, inl, inr, Bool, ◌&&◌,
  Option, none, some, arith, ltb, leb, ◌==◌, if◌then◌else◌, Bool-cases, u32, le32, bit_and_mask,
}
use minios_grub_bootloader.Disk.{Disk, Driver, Reads}
use minios_grub_bootloader.Disk.Memory.{sectors-one}
use minios_grub_bootloader.Fat32.Types.{Context, IsMounted, InRange}
use minios_grub_bootloader.Fat32.Table.{scan_sector, scan_table, find_free_cluster}
use minios_grub_bootloader.Fat32.Table.Entry.{clusters_few, table_low, entry}
use native.Mathlib.Decide.{ℕ_discrete}

-- `answer` is the first free cluster of the volume, or 0 if no cluster is free.
pub data IsFirstFree (ctx : Context) (d : Disk) : ℕ → Type 0 where
  free :
      {cluster : ℕ}
      → InRange ctx cluster
      → entry ctx d cluster ≡ 0
      → ((c : ℕ) → 2 ≤ c → c < cluster → entry ctx d c ≢ 0)
      → IsFirstFree ctx d cluster
  full : ((c : ℕ) → InRange ctx c → entry ctx d c ≢ 0) → IsFirstFree ctx d 0

module _ (ctx : Context) (d : Disk) where
  -- No cluster below `n` is free.
  abbrev NoneBelow : ℕ → Type 0
  NoneBelow n = (c : ℕ) → InRange ctx c → c < n → entry ctx d c ≢ 0

  -- What the rounds over one sector return, from its entry `e` on.
  data Scanned (n : ℕ) : Option ℕ → Type 0 where
    goes_on : NoneBelow n → Scanned n none
    returns :
        {cluster : ℕ}
        → InRange ctx cluster
        → entry ctx d cluster ≡ 0
        → NoneBelow cluster
        → Scanned n (some cluster)

  NoneBelow-suc : (n : ℕ) → NoneBelow n → (InRange ctx n → entry ctx d n ≢ 0) → NoneBelow (n + 1)
  NoneBelow-suc n below at c r h = elim (ℕ_discrete c n) [
    | yes same ↦ rw same (at (rw same at r))
    | no differ ↦ below c r (omega arith)
  ]

module _ {ctx : Context} (m : IsMounted ctx) (d : Disk) where
  -- The entry that the round at byte `e * 4` of sector `s` reads.
  entry_at :
      (s e : ℕ)
      → e < 128
      → entry ctx d (s * 128 + e) ≡ le32 (d (ctx.fat_start + s)) (e * 4) % 2 ^ 28
  entry_at s e h = ap₂ (λ k i. le32 (d k) i % 2 ^ 28) (omega arith) (omega arith)

  -- The test of the loop, on the number of the cluster.
  abbrev takes : ℕ → Bool
  takes n = entry ctx d n == 0 && (leb 2 n && ltb n (ctx.total_clusters + 2))

  round :
      (left e s : ℕ)
      → e < 128
      → s < ctx.fat_size
      → scan_sector ctx (suc left) (e * 4) s (d (ctx.fat_start + s)) ≡ (
          if takes (s * 128 + e)
          then some (s * 128 + e)
          else scan_sector ctx left ((e + 1) * 4) s (d (ctx.fat_start + s)))
  unfolding scan_sector
  round left e s h lt =
      let few = clusters_few m in
      let number : u32 (u32 (s * ctx.bytes_per_sector) + e * 4) / 4 ≡ s * 128 + e =
        rw m.sector_bytes (omega (arith, m.table_lt)) in
      let limit : u32 (ctx.total_clusters + 2) ≡ ctx.total_clusters + 2 = omega arith in
      let next : e * 4 + 4 ≡ (e + 1) * 4 = omega arith in
      rw (
        number,
        limit,
        next,
        bit_and_mask 28 (le32 (d (ctx.fat_start + s)) (e * 4)),
        ← entry_at s e h,
      )

  scan_sector-Scanned :
      (left e s : ℕ)
      → e + left ≡ 128
      → s < ctx.fat_size
      → NoneBelow ctx d (s * 128 + e)
      → Scanned ctx d (s * 128 + 128) (scan_sector ctx left (e * 4) s (d (ctx.fat_start + s)))
  unfolding scan_sector
  scan_sector-Scanned zero e s h lt below = goes_on (λ c r p. below c r (omega arith))
  scan_sector-Scanned (suc left) e s h lt below =
      rw (round left e s (omega arith) lt) (elim (Bool-cases (takes (s * 128 + e))) [
        | inl found ↦ rw found (returns (ground arith) (ground arith) (λ c r p. below c r p))
        | inr other ↦ rw other (
            scan_sector-Scanned left (e + 1) s (omega arith) lt (λ c r p.
              NoneBelow-suc ctx d (s * 128 + e) below (λ q z. ground arith) c r (omega arith)))
      ])

  after :
      {n rest : ℕ} {o : Option ℕ}
      → Scanned ctx d n o
      → (NoneBelow ctx d n → IsFirstFree ctx d rest)
      → IsFirstFree ctx d (elim o [ none ↦ rest | some cluster ↦ cluster ])
  after (goes_on b) next = next b
  after (returns r e b) next = free r e (λ c lo hi. b c (omega arith) hi)

  scan_table-IsFirstFree :
      (drv : Driver) (left s : ℕ)
      → Reads drv
      → s + left ≡ ctx.fat_size
      → NoneBelow ctx d (s * 128)
      → IsFirstFree ctx d (scan_table drv ctx left s d)
  unfolding scan_table
  scan_table-IsFirstFree drv zero s reads h below =
      full (λ c r. below c r (omega (arith, m.covered)))
  scan_table-IsFirstFree drv (suc left) s reads h below =
      let low = table_low m in
      let at : u32 (ctx.fat_start + s) ≡ ctx.fat_start + s = omega arith in
      let got = reads.reads (ctx.fat_start + s) 1 d (omega arith) (omega arith) (omega arith) in
      let rounds : (ctx.bytes_per_sector + 3) / 4 ≡ 128 = omega (arith, m.sector_bytes) in
      rw (at, scan_table, got, sectors-one d (ctx.fat_start + s), rounds)
        (after (scan_sector-Scanned 128 0 s refl (omega arith) (λ c r p. below c r (omega arith)))
          (λ b.
            scan_table-IsFirstFree drv left (s + 1) reads (omega arith)
              (λ c r p. b c r (omega arith))))

-- On a mounted volume with a driver that reads, `find_free_cluster` answers the first cluster of
-- the volume whose entry is 0, and 0 exactly when there is none.
pub find_free_cluster-IsFirstFree :
    {drv : Driver} {ctx : Context} (d : Disk)
    → Reads drv
    → IsMounted ctx
    → IsFirstFree ctx d (find_free_cluster drv ctx d)
unfolding find_free_cluster
find_free_cluster-IsFirstFree {drv} {ctx} d reads m =
    scan_table-IsFirstFree m d drv ctx.fat_size 0 reads (omega arith)
      (λ c r h. absurd (omega arith))
