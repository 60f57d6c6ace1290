-- ===== src/Common.antt =====
-- Names, types and lemmas that every component shares: the libraries' names passed on, Boolean
-- tests on native numbers, lists measured and indexed by native numbers, and C's integers.
mod Tests
mod Lists
pub mod Int
pub mod Bits
pub mod Decimal
pub mod Text
pub mod Scan
pub use Tests.*
pub use Lists.*
pub use Int.{
  ℤ, pos, negsuc, minus_one, size_mod, add_size, sub_size, mul_size, size_of_int, int_of_size,
  int_max,
}
pub use Prim.Native.Nat.{ℕ, zero, suc, ◌+◌, ◌-◌, ◌*◌, ◌/◌, ◌%◌, ◌^◌, ◌≤◌, ◌<◌, min}
pub use mathlib.Core.Path.{◌≡◌, refl, sym, ap, ap₂, ◌∙◌, subst}
pub use mathlib.Core.Logic.{◌≢◌, ◌↔◌, ◌⊎◌, inl, inr}
pub use mathlib.Core.Bool.{Bool, true, false, not, ◌&&◌, ◌||◌}
pub use mathlib.Core.Option.{Option, none, some}
pub use mathlib.Core.List.{List, [], ◌∷◌, ◌++◌, map, append-nil, append_assoc, map-append}
pub use native.Mathlib.Omega.{arith}
