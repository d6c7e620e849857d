-- ===== src/Common.antt =====
-- The names that the modules share: the libraries', passed on, and those of the children below.
mod Tests
mod Lists
mod Effects
mod Preserves
mod Total
mod Decimal
pub mod Dict
pub mod Int
pub use Tests.*
pub use Lists.*
unfoldable pub use Lists.{for_each}
pub use Effects.*
pub use Preserves.*
pub use Total.*
unfoldable pub use Decimal.{show_nat}
pub use Decimal.{show_nat-injective}
pub use Prim.Native.Nat.{ℕ, zero, suc, ◌+◌, ◌-◌, ◌*◌, ◌/◌, ◌%◌, ◌^◌, ◌≤◌, ◌<◌}
pub use Prim.Native.String.{String, ◌++◌ as ◌<>◌}
pub use mathlib.Core.Path.{◌≡◌, refl, sym, ap, subst, ◌∙◌}
pub use mathlib.Core.Logic.{◌≢◌, ◌↔◌, ◌⊎◌, inl, inr}
pub use mathlib.Core.Bool.{Bool, true, false, not, ◌&&◌, ◌||◌}
pub use mathlib.Core.Option.{Option, none, some}
pub use mathlib.Core.List.{List, [], ◌∷◌, ◌++◌, append_assoc, append-nil, map}
pub use native.Mathlib.Omega.{arith}
pub use text.Mathlib.Text.{◌==◌, starts_with}
pub use text.Mathlib.TextEquality.{eq_iff}
pub use text.Mathlib.TextPositions.{eq_refl}
