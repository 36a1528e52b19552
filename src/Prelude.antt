-- ===== src/Prelude.antt =====
-- Shared by every module: the library names passed on, Boolean tests, lists, dictionaries, results.
mod Tests
mod Lists
mod Results
mod Texts
mod Chars
pub mod TextOrder
pub mod Sorting
pub mod Dict
pub use Tests.*
pub use Lists.*
pub use Results.*
pub use Texts.*
unfoldable pub use Chars.{first_chars, has_length_within, has_dots, has_slash}
pub use Prim.Native.Nat.{ℕ, zero, suc, ◌+◌, ◌-◌, ◌*◌, ◌≤◌, ◌<◌, min, max}
pub use Prim.Native.String.{String}
pub use mathlib.Core.Path.{◌≡◌, refl, sym, ap, ap₂, subst, ◌∙◌}
pub use mathlib.Core.Logic.{◌≢◌, ◌↔◌, ◌⊎◌, inl, inr}
pub use mathlib.Core.Bool.{Bool, true, false, not, ◌&&◌, ◌||◌}
pub use mathlib.Core.Option.{Option, none, some}
pub use mathlib.Core.List.{List, [], ◌∷◌, ◌++◌, map}
pub use native.Mathlib.Omega.{arith}
unfoldable pub use text.Mathlib.Text.{◌==◌}
pub use text.Mathlib.TextEquality.{eq_iff}
pub use text.Mathlib.TextPositions.{eq_refl}
