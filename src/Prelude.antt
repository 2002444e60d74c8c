-- ===== src/Prelude.antt =====
-- The names that every module shares: the libraries', passed on, and those of the children, which
-- hold the Boolean tests, lists over the native numbers, byte strings, dictionaries and results.
mod Tests
mod Lists
mod Texts
mod Dicts
mod Results
mod Ints
pub mod Options
pub use Tests.*
pub use Lists.*
unfoldable pub use Texts.{Text, text_eq, str, contains}
pub use Texts.{text_eq_iff, text_eq_refl, text_eq_sym, contains_iff, text_laws}
unfoldable pub use Dicts.{Assoc, lookup, without, insert}
pub use Dicts.{lookup-without, lookup-insert}
pub use Results.*
pub use Ints.*
pub use Prim.Native.Nat.{ℕ, zero, suc, ◌+◌, ◌-◌, ◌*◌, ◌/◌, ◌%◌, ◌^◌, ◌≤◌, ◌<◌}
pub use Prim.Native.String.{String}
pub use mathlib.Core.Path.{◌≡◌, refl, sym, ap, ◌∙◌, subst}
pub use mathlib.Core.Logic.{◌≢◌, ◌↔◌, ◌⊎◌, inl, inr}
pub use mathlib.Core.Bool.{Bool, true, false, ◌&&◌, ◌||◌, not}
pub use mathlib.Core.Option.{Option, none, some}
pub use mathlib.Core.List.{List, [], ◌∷◌, ◌++◌, map}
pub use native.Mathlib.Omega.{arith}
