-- ===== src/Base.antt =====
-- The names and helpers that all modules share: Boolean tests, lists over the native numbers.
pub mod Tests
pub mod Lists
pub mod Int
pub mod Items
pub use Tests.*
unfoldable pub use Tests.{all_below}
pub use Lists.*
pub use Items.{
  one_if, count, SameItems, IsDistinct, Within, count-append, count-take-le, count-set,
  count-range_from, includes-eq-count, count-keep, IsSorted, sorted-IsSorted, count-sorted,
  length-sorted, sorted-take-IsDistinct, sorted-take-Within, range_from-IsDistinct,
  range_from-Within, no_repeats, no_repeats-IsDistinct, all_less, all_less-Within, take-IsDistinct,
  take-Within, length-keep-includes, length-keep-not, keep_congr, and_others, and_others-IsDistinct,
  and_others-Within,
}
unfoldable pub use Items.{sorted, insert_sorted}
pub use Prim.Native.Nat.{ℕ, zero, suc, ◌+◌, ◌-◌, ◌*◌, ◌/◌, ◌%◌, ◌^◌, ◌≤◌, ◌<◌, min, max}
pub use mathlib.Core.Path.{◌≡◌, refl, sym, ap, ◌∙◌}
pub use mathlib.Core.Logic.{◌≢◌, ◌↔◌, ◌⊎◌, inl, inr}
pub use mathlib.Core.Bool.{Bool, true, false, ◌&&◌, ◌||◌, not}
pub use mathlib.Core.Option.{Option, none, some}
pub use mathlib.Core.List.{List, [], ◌∷◌, ◌++◌, map}
pub use native.Mathlib.Omega.{arith}
