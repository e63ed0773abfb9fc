-- ===== src/Base.antt =====
-- What the other modules share: library names, Boolean tests, lists measured by native numbers,
-- the panics of Rust, and fixed-width big-endian numbers.
mod Tests
mod Lists
mod Panics
mod Fallible
pub mod Bits
pub mod Bytes
pub mod Slots
pub mod Chunks
pub mod Actions
pub use Tests.*
pub use Lists.*
pub use Panics.*
pub use Fallible.*
pub use Prim.Native.Nat.{ℕ, zero, suc, ◌+◌, ◌-◌, ◌*◌, ◌/◌, ◌%◌, ◌^◌, ◌≤◌, ◌<◌, min, max}
pub use Prim.Native.Nat.{bit_and, bit_or, bit_xor}
pub use mathlib.Core.Path.{◌≡◌, refl, sym, ap, ap₂, ◌∙◌, subst}
pub use mathlib.Core.Logic.{◌≢◌, ◌↔◌, ◌⊎◌, inl, inr}
pub use mathlib.Core.Bool.{Bool, true, false, ◌&&◌, ◌||◌, not}
pub use mathlib.Core.Option.{Option, none, some}
pub use mathlib.Core.List.{List, [], ◌∷◌, ◌++◌, map, append-nil, append_assoc}
pub use native.Mathlib.Omega.{arith}
