-- ===== src/Base.antt =====
-- The names that the other modules share: the libraries', passed on, and those of the children.
mod Tests
mod Lists
mod Maps
mod Sort
mod Subsets
mod Results
pub mod Bytes
pub mod Regex
pub use Tests.*
pub use Lists.*
pub use Results.*
pub use Subsets.*
unfoldable pub use Maps.{lookup, insert, mem, delete}
unfoldable pub use Sort.{insert_by, sort_by, sort_strings}
pub use Sort.{str_lt, any-sort_by, total-sort_by, total-sort_strings, mem-sort_strings}
pub use Maps.{
  Dict, lookup-insert, mem-delete, mem-append, count, is_name, one_if, mem-count, count-append,
}
pub use Prim.Native.Nat.{ℕ, zero, suc, ◌+◌, ◌-◌, ◌*◌, ◌/◌, ◌%◌, ◌^◌, ◌≤◌, ◌<◌}
pub use Prim.Native.String.{String}
pub use mathlib.Core.Path.{◌≡◌, refl, sym, ap, ◌∙◌}
pub use mathlib.Core.Logic.{◌≢◌, ◌↔◌, ◌⊎◌, inl, inr}
pub use mathlib.Core.Bool.{Bool, true, false, ◌&&◌, ◌||◌, not}
pub use mathlib.Core.Option.{Option, none, some}
pub use mathlib.Core.List.{List, [], ◌∷◌, ◌++◌, map}
pub use native.Mathlib.Omega.{arith}
pub use text.Mathlib.Text.{◌==◌ as str_eq}
pub use text.Mathlib.TextEquality.{eq_iff}
pub use text.Mathlib.TextPositions.{eq_refl}
