-- ===== src/Common.antt =====
-- The names that the other modules share: the libraries', passed on, and those of the children.
mod Tests
mod Lists
mod Words
mod Assoc
pub mod Sets
pub use Tests.*
pub use Lists.*
pub use Words.*
unfoldable pub use Assoc.{find, put, remove}
pub use Assoc.{
  find-empty, find-put, find-put_hit, find-put_miss, find-remove, find-remove_miss, Distinct,
  remove-Distinct, put-Distinct, length-remove, length-put, length-put_found, map_values,
  find-map_values-none, map_values-Distinct, length-map_values, find-map_values,
}
pub use Prim.Native.Nat.{ℕ, zero, suc, ◌+◌, ◌-◌, ◌*◌, ◌/◌, ◌%◌, ◌^◌, ◌≤◌, ◌<◌, min, max}
pub use Prim.Native.String.{String}
pub use mathlib.Core.Path.{◌≡◌, refl, sym, ap, ◌∙◌, subst}
pub use mathlib.Core.Logic.{◌≢◌, ◌↔◌, ◌⊎◌, inl, inr}
pub use mathlib.Core.Bool.{Bool, true, false, not, ◌&&◌, ◌||◌}
pub use mathlib.Core.Option.{Option, none, some}
pub use mathlib.Core.List.{List, [], ◌∷◌, ◌++◌, map}
pub use native.Mathlib.Omega.{arith}
