-- ===== src/Base.antt =====
-- The names that the other modules share: the libraries', passed on, and those of eight children.
mod Tests
mod Lists
mod Classes
mod Maps
mod Results
mod Pow
mod Strings
mod Runes
mod Decimals
pub use Tests.*
pub use Lists.*
unfoldable pub use Classes.*
unfoldable pub use Maps.*
pub use Results.*
pub use Pow.*
unfoldable pub use Strings.*
unfoldable pub use Runes.*
pub use Decimals.*
pub use Prim.Native.Nat.{ℕ, zero, suc, ◌+◌, ◌-◌, ◌*◌, ◌/◌, ◌%◌, ◌^◌, ◌≤◌, ◌<◌}
pub use Prim.Native.String.{String}
pub use mathlib.Core.Path.{◌≡◌, refl, sym, ap, ◌∙◌, subst}
pub use mathlib.Core.Logic.{◌≢◌, ◌↔◌, ◌⊎◌, inl, inr}
pub use mathlib.Core.Bool.{Bool, true, false, not, ◌&&◌, ◌||◌}
pub use mathlib.Core.Option.{Option, none, some}
pub use mathlib.Core.List.{List, [], ◌∷◌, ◌++◌, map}
pub use native.Mathlib.Omega.{arith}
