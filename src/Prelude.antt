-- ===== src/Prelude.antt =====
-- Names that every module shares: the libraries', passed on, Boolean tests and conditionals over
-- the native numbers, native lists, and Python's exceptions as a result type.
mod Tests
mod Lists
mod Errors
mod Numbers
pub mod Text
pub mod Values
pub mod Keys
pub use Tests.*
pub use Lists.*
pub use Errors.*
pub use Numbers.*
pub use Prim.Native.Nat.{ℕ, zero, suc, ◌+◌, ◌-◌, ◌*◌, ◌/◌, ◌%◌, ◌^◌, ◌≤◌, ◌<◌, min, max}
pub use mathlib.Core.Path.{◌≡◌, refl, sym, ap, ◌∙◌}
pub use mathlib.Core.Logic.{◌≢◌, ◌↔◌, ◌⊎◌, inl, inr}
pub use mathlib.Core.Bool.{Bool, true, false, ◌&&◌, ◌||◌, not}
pub use mathlib.Core.Option.{Option, none, some}
pub use mathlib.Core.List.{List, [], ◌∷◌, ◌++◌, map}
pub use native.Mathlib.Omega.{arith}
