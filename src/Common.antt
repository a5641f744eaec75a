-- ===== src/Common.antt =====
-- The names that the other modules share: the libraries' names that the models use, and the
-- project's own tests, lists, texts, dictionaries and outcomes of calls that may throw.
pub mod Tests
pub mod Lists
pub mod Strings
pub mod Dict
pub mod Outcomes
pub mod Actions
pub mod Decimal
pub mod Json
pub mod Trim
pub use Tests.*
pub use Lists.*
unfoldable pub use Strings.*
unfoldable pub use Dict.*
pub use Outcomes.*
pub use Actions.*
unfoldable pub use Decimal.*
pub use Prim.Native.Nat.{ℕ, zero, suc, ◌+◌, ◌-◌, ◌*◌, ◌/◌, ◌%◌, ◌≤◌, ◌<◌, min}
pub use mathlib.Core.Path.{◌≡◌, refl, sym, ap, ap₂, ◌∙◌}
pub use mathlib.Core.Logic.{◌≢◌, ◌↔◌, ◌⊎◌, inl, inr}
pub use mathlib.Core.Bool.{Bool, true, false, not, ◌&&◌, ◌||◌}
pub use mathlib.Core.Option.{Option, none, some}
pub use mathlib.Core.List.{List, [], ◌∷◌, ◌++◌, map, append-nil, append_assoc}
pub use native.Mathlib.Omega.{arith}
