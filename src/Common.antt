-- ===== src/Common.antt =====
-- What the models of shared/spike share: names of the libraries, Boolean tests, lists and integers
-- over the native numbers, and the arithmetic of bit fields.
mod Tests
mod Lists
mod Int
mod Ascii
pub mod Digits
pub mod Lines
pub mod Bits
pub mod BitBounds
pub use Tests.*
pub use Lists.*
pub use Int.*
pub use Ascii.*
pub use Prim.Native.Nat.{ℕ, zero, suc, ◌+◌, ◌-◌, ◌*◌, ◌/◌, ◌%◌, ◌^◌, ◌≤◌, ◌<◌, min}
pub use Prim.Native.Nat.{bit_and, bit_or, bit_xor}
pub use mathlib.Core.Path.{◌≡◌, refl, sym, ap, ◌∙◌, subst}
pub use mathlib.Core.Logic.{◌≢◌, ◌↔◌, ◌⊎◌, inl, inr}
pub use mathlib.Core.Bool.{Bool, true, false, not, ◌&&◌, ◌||◌}
pub use mathlib.Core.Option.{Option, none, some}
pub use mathlib.Core.List.{List, [], ◌∷◌, ◌++◌, map, append-nil, append_assoc}
pub use native.Mathlib.Omega.{arith}
