-- ===== src/Base.antt =====
-- What the other modules share: library names passed on, tests, lists, texts and results.
mod Tests
mod Lists
pub mod Strings
pub mod Scan
pub mod Strconv
pub mod Paths
mod Outcome
pub mod Order
pub use Tests.*
pub use Lists.*
pub use Outcome.*
unfoldable pub use Strings.{Text, codes, text_eq, text_lt, is_blank, trim_space, null}
pub use Strings.{text_eq_iff, text_eq_refl}
pub use Prim.Native.Nat.{ℕ, zero, suc, ◌+◌, ◌-◌, ◌*◌, ◌/◌, ◌%◌, ◌^◌, ◌≤◌, ◌<◌}
pub use mathlib.Core.Path.{◌≡◌, refl, sym, ap, subst, ◌∙◌}
pub use mathlib.Core.Logic.{◌≢◌, ◌↔◌, ◌⊎◌, inl, inr}
pub use mathlib.Core.Bool.{Bool, true, false, not, ◌&&◌, ◌||◌}
pub use mathlib.Core.Option.{Option, none, some}
pub use mathlib.Core.List.{List, [], ◌∷◌, ◌++◌, map}
pub use native.Mathlib.Omega.{arith}
