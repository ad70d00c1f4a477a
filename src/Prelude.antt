-- ===== src/Prelude.antt =====
-- The names that the components share: the libraries', passed on, and those of the children.
mod Tests
mod Equality
mod Lists
mod Sorting
mod Names
mod Pigeonhole
mod Sublists
mod Dicts
mod Outcome
mod Relations
mod Text
pub use Tests.*
pub use Equality.*
unfoldable pub use Lists.*
unfoldable pub use Sorting.*
unfoldable pub use Names.*
pub use Pigeonhole.*
pub use Sublists.*
unfoldable pub use Dicts.*
pub use Outcome.*
unfoldable pub use Text.*
pub use Relations.*
pub use Prim.Native.Nat.{ℕ, zero, suc, ◌+◌, ◌-◌, ◌*◌, ◌≤◌, ◌<◌, min, max}
pub use Prim.Native.String.{String}
pub use mathlib.Core.Path.{◌≡◌, refl, sym, ap, ◌∙◌, subst}
pub use mathlib.Core.Logic.{◌≢◌, ◌↔◌, ◌⊎◌, inl, inr}
pub use mathlib.Core.Bool.{Bool, true, false, not, ◌&&◌, ◌||◌}
pub use mathlib.Core.Option.{Option, none, some}
pub use mathlib.Core.List.{List, [], ◌∷◌, ◌++◌, map}
pub use native.Mathlib.Omega.{arith}
