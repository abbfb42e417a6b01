-- ===== src/Prelude.antt =====
-- The names that the other modules share: the libraries', passed on, and those of seven children.
mod Tests
mod Lists
mod Maps
mod Results
mod Distinct
mod Slices
mod Sorting
pub use Tests.*
pub use Lists.*
pub use Results.*
pub use Distinct.*
pub use Slices.*
pub use Sorting.*
unfoldable pub use Maps.{Assoc, lookup, insert, remove}
pub use Maps.{lookup-insert, lookup-remove, assoc_laws}
pub use Prim.Native.Nat.{ℕ, zero, suc, ◌+◌, ◌-◌, ◌*◌, ◌/◌, ◌%◌, ◌^◌, ◌≤◌, ◌<◌}
pub use Prim.Native.String.{String}
pub use mathlib.Core.Path.{◌≡◌, refl, sym, ap, ◌∙◌}
pub use mathlib.Core.Logic.{◌≢◌, ◌↔◌, ◌⊎◌, inl, inr}
pub use mathlib.Core.Bool.{Bool, true, false, not, ◌&&◌, ◌||◌}
pub use mathlib.Core.Option.{Option, none, some}
pub use mathlib.Core.List.{List, [], ◌∷◌, ◌++◌, map, append-nil, append_assoc}
pub use native.Mathlib.Omega.{arith}
pub use text.Mathlib.Text.{◌==◌ as str_eq}
pub use text.Mathlib.TextEquality.{eq_iff}
pub use text.Mathlib.TextPositions.{eq_refl}
