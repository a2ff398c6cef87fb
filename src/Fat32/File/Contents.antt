-- ===== src/Fat32/File/Contents.antt =====
-- The bytes of a file: those of the clusters of its chain, one after the other.
use minios_grub_bootloader.Base.{
  ℕ, zero, suc, ◌+◌, ◌*◌, ◌/◌, ◌%◌, ◌≤◌, ◌<◌, ◌≡◌, refl, sym, ap, ap₂, ◌∙◌, List, [], ◌∷◌, ◌++◌,
  arith, length, get_or, take, drop,
}
use minios_grub_bootloader.Fat32.Table.Data.{cluster_bytes}
use minios_grub_bootloader.Disk.{Disk, Driver}
use minios_grub_bootloader.Fat32.Types.{Context}
use minios_grub_bootloader.Fat32.Table.{fat32_next_cluster}

-- The `k`-th cluster of the chain, or what `fat32_next_cluster` answers past its end.
unfoldable pub nth_cluster : Driver → Context → Disk → ℕ → ℕ → ℕ
nth_cluster drv ctx d start zero = start
nth_cluster drv ctx d start (suc k) = fat32_next_cluster drv ctx (nth_cluster drv ctx d start k) d

module _ (drv : Driver) (ctx : Context) (d : Disk) (start : ℕ) where
  abbrev pub file_byte : ℕ → ℕ
  file_byte i =
      get_or (cluster_bytes ctx d (nth_cluster drv ctx d start (i / ctx.cluster_size)))
        (i % ctx.cluster_size) 0

  -- `n` bytes from offset `i` on.
  unfoldable pub contents : ℕ → ℕ → List ℕ
  contents i zero = []
  contents i (suc n) = file_byte i ∷ contents (i + 1) n

  pub length-contents : (i n : ℕ) → length (contents i n) ≡ n
  unfolding contents
  length-contents i zero = refl
  length-contents i (suc n) = ap suc (length-contents (i + 1) n)

  pub contents-add : (i a b : ℕ) → contents i (a + b) ≡ contents i a ++ contents (i + a) b
  unfolding contents
  contents-add i zero b = ap₂ (λ j n. contents j n) (omega arith) (omega arith)
  contents-add i (suc a) b =
      let count : suc a + b ≡ suc (a + b) = omega arith in
      let from : i + 1 + a ≡ i + suc a = omega arith in rw (count, contents-add (i + 1) a b, from)

slice_suc :
    (xs : List ℕ) (r n : ℕ)
    → r < length xs
    → take (suc n) (drop r xs) ≡ get_or xs r 0 ∷ take n (drop (suc r) xs)
slice_suc [] r n h = absurd (omega arith)
slice_suc (x ∷ xs) zero n h = refl
slice_suc (x ∷ xs) (suc r) n h = slice_suc xs r n (omega arith)

pub div_of_parts : (k c r : ℕ) → r < c → (k * c + r) / c ≡ k
div_of_parts k c r h = grind arith

pub mod_of_parts : (k c r : ℕ) → r < c → (k * c + r) % c ≡ r
mod_of_parts k c r h = grind arith

module _ (drv : Driver) (ctx : Context) (d : Disk) (start : ℕ) where
  -- A part of one cluster is a part of the file.
  pub contents_of_cluster :
      (k r n : ℕ)
      → length (cluster_bytes ctx d (nth_cluster drv ctx d start k)) ≡ ctx.cluster_size
      → r + n ≤ ctx.cluster_size
      → take n (drop r (cluster_bytes ctx d (nth_cluster drv ctx d start k)))
        ≡ contents drv ctx d start (k * ctx.cluster_size + r) n
  unfolding contents
  contents_of_cluster k r zero full h = refl
  contents_of_cluster k r (suc n) full h =
      slice_suc (cluster_bytes ctx d (nth_cluster drv ctx d start k)) r n (omega arith)
      ∙ ap₂ ◌∷◌ (sym here) (
          contents_of_cluster k (suc r) n full (omega arith)
          ∙ ap (λ j. contents drv ctx d start j n) (omega arith))
    where
      here :
          file_byte drv ctx d start (k * ctx.cluster_size + r)
          ≡ get_or (cluster_bytes ctx d (nth_cluster drv ctx d start k)) r 0
      here = rw (
        div_of_parts k ctx.cluster_size r (omega arith),
        mod_of_parts k ctx.cluster_size r (omega arith),
      )
