-- ===== src/Base.antt =====
-- Names that the other modules share: the libraries', passed on, tests on numbers, words and lists.
mod Tests
mod Lists
mod Counts
mod Bind
mod Arrays
mod Hash
mod Inorder
pub mod Words
pub mod Table
pub use Tests.*
pub use Lists.*
pub use Counts.*
pub use Bind.*
pub use Arrays.*
pub use Hash.*
pub use Inorder.*
pub use Prim.Native.Nat.{ℕ, zero, suc, ◌+◌, ◌-◌, ◌*◌, ◌/◌, ◌%◌, ◌^◌, ◌≤◌, ◌<◌, max, min}
pub use mathlib.Core.Path.{◌≡◌, refl, sym, ap, subst, ◌∙◌}
pub use mathlib.Core.Logic.{◌≢◌, ◌↔◌, ◌⊎◌, inl, inr}
pub use mathlib.Core.Bool.{Bool, true, false, not, ◌&&◌, ◌||◌}
pub use mathlib.Core.Option.{Option, none, some}
pub use mathlib.Core.List.{List, [], ◌∷◌, ◌++◌, map}
pub use native.Mathlib.Omega.{arith}
