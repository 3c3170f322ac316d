-- ===== src/Base.antt =====
-- The names that the other modules share: the libraries' names, Boolean tests, machine words,
-- results with faults, register files.
mod Tests
mod Word
mod Outcome
mod Store
pub mod Lists
pub mod Search
pub mod Process
pub mod Bits
pub mod Masks
pub mod Shifts
pub mod Xor
pub mod Fields
pub use Tests.*
unfoldable pub use Word.*
pub use Outcome.*
pub use Store.*
pub use Prim.Native.Nat.{ℕ, zero, suc, ◌+◌, ◌-◌, ◌*◌, ◌/◌, ◌%◌, ◌^◌, ◌≤◌, ◌<◌}
pub use Prim.Native.Nat.{bit_and, bit_or, bit_xor}
pub use mathlib.Core.Path.{◌≡◌, refl, sym, ap, subst, ◌∙◌}
pub use mathlib.Core.Logic.{◌≢◌, ◌↔◌, ◌⊎◌, inl, inr}
pub use mathlib.Core.Bool.{Bool, true, false, not, ◌&&◌, ◌||◌}
pub use mathlib.Core.Option.{Option, none, some}
pub use mathlib.Core.List.{List, [], ◌∷◌, ◌++◌}
pub use native.Mathlib.Omega.{arith}
