-- ===== src/Common.antt =====
-- The names that the other modules share: numbers, paths, lists, Boolean tests and their lemmas.
mod Tests
mod Lists
mod Strings
mod Int
pub use Tests.*
pub use Lists.*
unfoldable pub use Strings.{list_eq, lower, upper}
pub use Strings.*
unfoldable pub use Int.{to_int32, add_ℕ}
pub use Int.*
pub use Prim.Native.Nat.{ℕ, zero, suc, ◌+◌, ◌-◌, ◌*◌, ◌/◌, ◌%◌, ◌^◌, ◌≤◌, ◌<◌, bit_and, bit_or}
pub use mathlib.Core.Path.{◌≡◌, refl, sym, ap, ◌∙◌}
pub use mathlib.Core.Logic.{◌≢◌, ◌↔◌, ◌⊎◌, inl, inr}
pub use mathlib.Core.Bool.{Bool, true, false, not, ◌&&◌, ◌||◌}
pub use mathlib.Core.Option.{Option, none, some}
pub use mathlib.Core.List.{List, [], ◌∷◌, ◌++◌, map}
pub use native.Mathlib.Omega.{arith}
