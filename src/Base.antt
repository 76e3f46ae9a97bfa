-- ===== src/Base.antt =====
-- The names that the modules share: the libraries', passed on, and those of the children here.
mod Tests
mod Lists
mod Words
mod Count
mod Ints
mod Bytes
mod Bits
mod Fuel
pub use Tests.*
pub use Lists.*
pub use Words.*
pub use Ints.*
unfoldable pub use Bytes.*
pub use Bits.*
pub use Fuel.*
pub use Count.*
pub use Prim.Native.Nat.{ℕ, zero, suc, ◌+◌, ◌-◌, ◌*◌, ◌/◌, ◌%◌, ◌^◌, ◌≤◌, ◌<◌, min, max}
pub use mathlib.Core.Path.{◌≡◌, refl, sym, ap, ◌∙◌, subst}
pub use mathlib.Core.Logic.{◌≢◌, ◌↔◌, ◌⊎◌, inl, inr}
pub use mathlib.Core.Bool.{Bool, true, false, not, ◌&&◌, ◌||◌}
pub use mathlib.Core.Option.{Option, none, some}
pub use mathlib.Core.List.{List, [], ◌∷◌, ◌++◌, map, append_assoc, append-nil}
pub use native.Mathlib.Omega.{arith}
