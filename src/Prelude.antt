-- ===== src/Prelude.antt =====
-- The names that every module shares: the libraries', passed on, and those of the children.
mod Tests
mod Lists
mod Texts
pub mod Dict
pub mod Codes
pub mod Json
pub mod Show
pub mod Ints
pub mod Words
pub mod IntDict
pub mod Numerals
mod Format
pub use Tests.*
pub use Lists.*
unfoldable pub use Format.{join, show_ℕ}
pub use Texts.{
  contains, non_blank, or_text, IsDistinct, contains-append, contains-add_new, contains-add_all,
  IsDistinct-add_new, IsDistinct-add_all, add_all-append, add_all-add_all, add_all-nil_distinct,
}
unfoldable pub use Texts.{add_new, add_all}
pub use Prim.Native.Nat.{ℕ, zero, suc, ◌+◌, ◌-◌, ◌*◌, ◌%◌, ◌≤◌, ◌<◌}
pub use Prim.Native.String.{String}
pub use mathlib.Core.Path.{◌≡◌, refl, sym, ◌∙◌, ap, ap₂}
pub use mathlib.Core.Logic.{◌≢◌, ◌↔◌, ◌⊎◌, inl, inr}
pub use mathlib.Core.Bool.{Bool, true, false, not, ◌&&◌, ◌||◌}
pub use mathlib.Core.Option.{Option, none, some}
pub use mathlib.Core.List.{List, [], ◌∷◌, ◌++◌, map}
pub use native.Mathlib.Omega.{arith}
pub use text.Mathlib.Text.{◌==◌}
pub use text.Mathlib.TextEquality.{eq_iff}
pub use text.Mathlib.TextPositions.{eq_refl}
