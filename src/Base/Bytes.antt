-- ===== src/Base/Bytes.antt =====
-- Little-endian fields of an array of bytes, as the packed structures of the sources lay them out.
use Prim.Native.Nat.{ℕ, ◌+◌, ◌*◌, ◌/◌, ◌%◌, ◌^◌, ◌≤◌, ◌<◌}
use mathlib.Core.Path.{◌≡◌, ◌∙◌}
use mathlib.Core.Logic.{◌⊎◌}
use mathlib.Core.List.{List}
use native.Mathlib.Omega.{arith}
use minios_grub_bootloader.Base.Lists.{
  length, get_or, set, length-set, get_or-set_self, get_or-set_ne,
}

abbrev pub byte_at : List ℕ → ℕ → ℕ
byte_at b i = get_or b i 0

-- `*(uint16_t *)(b + i)`
unfoldable pub le16 : List ℕ → ℕ → ℕ
le16 b i = byte_at b i + byte_at b (i + 1) * 2 ^ 8

-- `*(uint32_t *)(b + i)`
unfoldable pub le32 : List ℕ → ℕ → ℕ
le32 b i =
    byte_at b i
    + byte_at b (i + 1) * 2 ^ 8
    + byte_at b (i + 2) * 2 ^ 16
    + byte_at b (i + 3) * 2 ^ 24

-- `*(uint16_t *)(b + i) = v`
unfoldable pub store_le16 : List ℕ → ℕ → ℕ → List ℕ
store_le16 b i v = set (set b i (v % 2 ^ 8)) (i + 1) (v / 2 ^ 8 % 2 ^ 8)

-- `*(uint32_t *)(b + i) = v`
unfoldable pub store_le32 : List ℕ → ℕ → ℕ → List ℕ
store_le32 b i v =
    set (set (set (set b i (v % 2 ^ 8)) (i + 1) (v / 2 ^ 8 % 2 ^ 8)) (i + 2) (v / 2 ^ 16 % 2 ^ 8))
      (i + 3) (v / 2 ^ 24 % 2 ^ 8)

pub length-store_le32 : (b : List ℕ) (i v : ℕ) → length (store_le32 b i v) ≡ length b
unfolding store_le32
length-store_le32 b i v = simp length-set

pub byte_at-store_le32_outside :
    (b : List ℕ) (i v j : ℕ) → (j < i) ⊎ (i + 4 ≤ j) → byte_at (store_le32 b i v) j ≡ byte_at b j
unfolding store_le32
byte_at-store_le32_outside b i v j h =
    get_or-set_ne (set (set (set b i _) (i + 1) _) (i + 2) _) (i + 3) j _ 0 (omega arith)
    ∙ get_or-set_ne (set (set b i _) (i + 1) _) (i + 2) j _ 0 (omega arith)
    ∙ get_or-set_ne (set b i _) (i + 1) j _ 0 (omega arith)
    ∙ get_or-set_ne b i j _ 0 (omega arith)

byte_at-store_le32 :
    (b : List ℕ) (i v : ℕ)
    → i + 4 ≤ length b
    → (byte_at (store_le32 b i v) i ≡ v % 2 ^ 8)
      × (byte_at (store_le32 b i v) (i + 1) ≡ v / 2 ^ 8 % 2 ^ 8)
      × (byte_at (store_le32 b i v) (i + 2) ≡ v / 2 ^ 16 % 2 ^ 8)
      × (byte_at (store_le32 b i v) (i + 3) ≡ v / 2 ^ 24 % 2 ^ 8)
unfolding store_le32
byte_at-store_le32 b i v fits = (
  get_or-set_ne (set b2 (i + 2) _) (i + 3) i _ 0 (omega arith)
      ∙ get_or-set_ne b2 (i + 2) i _ 0 (omega arith)
      ∙ get_or-set_ne b1 (i + 1) i _ 0 (omega arith)
      ∙ get_or-set_self b i _ 0 (omega arith),
  get_or-set_ne (set b2 (i + 2) _) (i + 3) (i + 1) _ 0 (omega arith)
      ∙ get_or-set_ne b2 (i + 2) (i + 1) _ 0 (omega arith)
      ∙ get_or-set_self b1 (i + 1) _ 0 (rw length-set (omega arith)),
  get_or-set_ne (set b2 (i + 2) _) (i + 3) (i + 2) _ 0 (omega arith)
      ∙ get_or-set_self b2 (i + 2) _ 0 (rw (length-set, length-set) (omega arith)),
  get_or-set_self (set b2 (i + 2) _) (i + 3) _ 0
      (rw (length-set, length-set, length-set) (omega arith)),
)
  where
    b1 : List ℕ
    b1 = set b i (v % 2 ^ 8)

    b2 : List ℕ
    b2 = set b1 (i + 1) (v / 2 ^ 8 % 2 ^ 8)

pub le32-store_le32_self :
    (b : List ℕ) (i v : ℕ) → i + 4 ≤ length b → v < 2 ^ 32 → le32 (store_le32 b i v) i ≡ v
unfolding le32
le32-store_le32_self b i v fits small = omega (arith, byte_at-store_le32 b i v fits)

pub le32-store_le32_apart :
    (b : List ℕ) (i j v : ℕ) → (j + 4 ≤ i) ⊎ (i + 4 ≤ j) → le32 (store_le32 b i v) j ≡ le32 b j
unfolding le32
le32-store_le32_apart b i j v h = omega (
  arith,
  byte_at-store_le32_outside b i v j (omega arith),
  byte_at-store_le32_outside b i v (j + 1) (omega arith),
  byte_at-store_le32_outside b i v (j + 2) (omega arith),
  byte_at-store_le32_outside b i v (j + 3) (omega arith),
)
