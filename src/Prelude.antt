-- ===== src/Prelude.antt =====
-- The names that every part shares: the libraries', passed on, and those of the children.
pub mod Tests
pub mod Lists
pub mod Arrays
pub mod CStrings
pub mod Int
pub mod Any
pub mod Changes
pub mod Permutation
pub use Tests.*
unfoldable pub use Lists.*
unfoldable pub use Arrays.*
unfoldable pub use CStrings.*
unfoldable pub use Int.*
unfoldable pub use Any.*
pub use Changes.*
pub use Permutation.*
pub use Prim.Native.Nat.{ℕ, zero, suc, ◌+◌, ◌-◌, ◌*◌, ◌/◌, ◌%◌, ◌^◌, ◌≤◌, ◌<◌}
pub use mathlib.Core.Path.{◌≡◌, refl, sym, ap, ◌∙◌, subst}
pub use mathlib.Core.Logic.{◌≢◌, ◌↔◌, ◌⊎◌, inl, inr}
pub use mathlib.Core.Bool.{Bool, true, false, ◌&&◌, ◌||◌, not}
pub use mathlib.Core.Option.{Option, none, some}
pub use mathlib.Core.List.{List, [], ◌∷◌, ◌++◌, map}
pub use native.Mathlib.Omega.{arith}
