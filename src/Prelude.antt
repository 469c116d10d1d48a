-- ===== src/Prelude.antt =====
-- The names that the other modules share: the libraries' passed on, and those of the children.
mod Tests
mod Lists
mod Bytes
pub mod Bits
pub mod Int
pub mod Dict
pub mod Keys
pub mod Decimal
pub mod Panics
pub mod Text
pub use Tests.*
pub use Lists.*
unfoldable pub use Bytes.{Str, str_dec}
pub use Prim.Native.Nat.{bit_xor, ℕ, zero, suc, ◌+◌, ◌-◌, ◌*◌, ◌/◌, ◌%◌, ◌^◌, ◌≤◌, ◌<◌, min, max}
pub use mathlib.Core.Path.{◌≡◌, refl, sym, ap, ◌∙◌}
pub use mathlib.Core.Logic.{◌≢◌, ◌↔◌, ◌⊎◌, inl, inr, ite, if_pos, if_neg}
pub use mathlib.Core.Bool.{Bool, true, false, ◌&&◌, ◌||◌, not}
pub use mathlib.Core.Option.{Option, none, some}
pub use mathlib.Core.List.{List, [], ◌∷◌, ◌++◌, map, reverse}
pub use native.Mathlib.Omega.{arith}
unfoldable pub use native.Mathlib.Decide.{dec_lt, dec_le, ℕ_discrete}
