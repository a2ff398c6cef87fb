-- ===== src/Base.antt =====
-- The names that the modules share: the library's, passed on, and those of the children.
mod Tests
mod Word
mod Lists
mod Bits
mod Int
mod Bytes
mod Text
pub use Tests.*
pub use Word.*
pub use Lists.*
pub use Bits.*
pub use Int.*
pub use Text.*
unfoldable pub use Bytes.{le16, le32, store_le16, store_le32}
pub use Bytes.*
pub use Prim.Native.Nat.{
  ℕ, zero, suc, ◌+◌, ◌-◌, ◌*◌, ◌/◌, ◌%◌, ◌^◌, ◌≤◌, ◌<◌, min, bit_and, bit_or, bit_xor,
}
pub use mathlib.Core.Path.{◌≡◌, refl, sym, ap, ap₂, ◌∙◌, ◌≡⟨◌⟩◌, ◌∎}
pub use mathlib.Core.Logic.{◌≢◌, ◌↔◌, ◌⊎◌, inl, inr}
pub use mathlib.Core.Bool.{Bool, true, false, not, ◌&&◌, ◌||◌}
pub use mathlib.Core.Option.{Option, none, some}
pub use mathlib.Core.List.{List, [], ◌∷◌, ◌++◌, map, append-nil, append_assoc}
pub use native.Mathlib.Omega.{arith}
