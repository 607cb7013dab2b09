-- ===== src/Base.antt =====
-- Names that the other modules share: the libraries' types and operators, Boolean tests on the
-- native numbers and on texts, lists measured by native numbers, and signed amounts.
mod Tests
mod Lists
mod Text
pub mod Tables
pub mod Scans
pub mod Counts
pub mod Int
pub use Tests.*
pub use Lists.*
pub use Tables.*
pub use Scans.*
pub use Counts.*
unfoldable pub use Text.{take_chars, decimal, strip, lstrip_char, has_char, is_space}
pub use Prim.Native.Nat.{ℕ, zero, suc, ◌+◌, ◌-◌, ◌*◌, ◌/◌, ◌%◌, ◌≤◌, ◌<◌, min, max}
pub use Prim.Native.String.{String}
pub use mathlib.Core.Path.{◌≡◌, refl, sym, ap, subst, ◌∙◌}
pub use mathlib.Core.Logic.{◌≢◌, ◌↔◌, ◌⊎◌, inl, inr}
pub use mathlib.Core.Bool.{Bool, true, false, not, ◌&&◌, ◌||◌, true≢false}
pub use mathlib.Core.Option.{Option, none, some}
pub use mathlib.Core.List.{List, [], ◌∷◌, ◌++◌}
pub use native.Mathlib.Omega.{arith}
pub use text.Mathlib.TextEquality.{eq_iff}
pub use text.Mathlib.TextPositions.{eq_refl}
