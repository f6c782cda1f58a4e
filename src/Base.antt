-- ===== src/Base.antt =====
-- The names that the other modules share: the libraries', passed on, and those of the children.
mod Tests
mod Lists
mod Words
mod Maps
mod Weights
mod Contents
mod Texts
mod Decimals
pub use Tests.*
pub use Lists.*
pub use Words.*
unfoldable pub use Maps.{str_eq}
unfoldable pub use Weights.{weight}
unfoldable pub use Maps.{find, emplace, assign, modify, erase, list_at, push_at}
pub use Maps.*
pub use Weights.*
pub use Contents.*
unfoldable pub use Texts.{text, member}
pub use Texts.*
unfoldable pub use Decimals.{decimal, to_string}
pub use Decimals.*
pub use Prim.Native.Nat.{ℕ, zero, suc, ◌+◌, ◌-◌, ◌*◌, ◌/◌, ◌%◌, ◌^◌, ◌≤◌, ◌<◌}
pub use mathlib.Core.Path.{◌≡◌, refl, sym, ap, ap₂, ◌∙◌, subst}
pub use mathlib.Core.Logic.{◌≢◌, ◌↔◌, ◌⊎◌, inl, inr}
pub use mathlib.Core.Bool.{Bool, true, false, not, ◌&&◌, ◌||◌}
pub use mathlib.Core.Option.{Option, none, some}
pub use mathlib.Core.List.{List, [], ◌∷◌, ◌++◌, map}
pub use native.Mathlib.Omega.{arith}
