-- ===== src/Prelude.antt =====
-- The names that the modules of this library share: the standard ones, passed on, and those of the
-- children. No code of the repository is modelled here.
mod Tests
mod Lists
mod Text
mod Decimal
mod Assoc
mod Chain
pub use Tests.*
pub use Chain.*
unfoldable pub use Lists.*
unfoldable pub use Text.*
unfoldable pub use Decimal.*
unfoldable pub use Assoc.*
pub use Prim.Native.Nat.{ℕ, zero, suc, ◌+◌, ◌-◌, ◌*◌, ◌/◌, ◌%◌, ◌^◌, ◌≤◌, ◌<◌, min, max}
pub use mathlib.Core.Path.{◌≡◌, refl, sym, ap, ◌∙◌, subst}
pub use mathlib.Core.Logic.{◌≢◌, ◌↔◌, ◌⊎◌, inl, inr}
pub use mathlib.Core.Bool.{Bool, true, false, ◌&&◌, ◌||◌, not}
pub use mathlib.Core.Option.{Option, none, some}
pub use mathlib.Core.List.{List, [], ◌∷◌, ◌++◌, map}
pub use native.Mathlib.Omega.{arith}
