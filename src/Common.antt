-- ===== src/Common.antt =====
-- The names that every module shares: the libraries', passed on, the Boolean tests, equality as an
-- interface, and lists over the native numbers.
mod Tests
mod Equality
mod Lists
mod Updates
mod Every
mod Options
pub use Tests.*
unfoldable pub use Equality.*
pub use Lists.*
pub use Updates.*
pub use Every.*
pub use Options.*
pub use Prim.Native.Nat.{ℕ, zero, suc, ◌+◌, ◌-◌, ◌*◌, ◌/◌, ◌%◌, ◌≤◌, ◌<◌}
pub use Prim.Native.String.{String}
pub use mathlib.Core.Path.{◌≡◌, refl, sym, ap, ◌∙◌}
pub use mathlib.Core.Logic.{◌≢◌, ◌↔◌, ◌⊎◌, inl, inr}
pub use mathlib.Core.Bool.{Bool, true, false, not, ◌&&◌, ◌||◌}
pub use mathlib.Core.Option.{Option, none, some}
pub use mathlib.Core.List.{List, [], ◌∷◌, ◌++◌, map}
pub use native.Mathlib.Omega.{arith}
