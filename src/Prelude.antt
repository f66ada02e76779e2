-- ===== src/Prelude.antt =====
-- The names that the other modules share: the libraries', passed on, and those of the children.
mod Tests
mod Lists
mod Sets
mod First
mod Decimal
mod Dicts
mod Keys
mod Sort
mod Results
mod Strings
pub use Tests.*
pub use Lists.*
pub use Sets.*
pub use Results.*
pub use First.*
unfoldable pub use Decimal.{decimal}
pub use Decimal.{
  decimal-injective, decimal-ne_nil, digits_value, digits_value-decimal, IsDigits, decimal-IsDigits,
}
pub use Dicts.*
pub use Keys.*
pub use Sort.*
pub use Strings.*
pub use Prim.Native.Nat.{ℕ, zero, suc, ◌+◌, ◌-◌, ◌*◌, ◌/◌, ◌%◌, ◌^◌, ◌≤◌, ◌<◌}
pub use Prim.Native.String.{String}
pub use mathlib.Core.Path.{◌≡◌, refl, sym, ap, ◌∙◌}
pub use mathlib.Core.Logic.{◌≢◌, ◌↔◌, ◌⊎◌, inl, inr}
pub use mathlib.Core.Bool.{Bool, true, false, not, ◌&&◌, ◌||◌}
pub use mathlib.Core.Option.{Option, none, some}
pub use mathlib.Core.List.{List, [], ◌∷◌, ◌++◌, map}
pub use native.Mathlib.Omega.{arith}
unfoldable pub use native.Mathlib.Decide.{dec_lt, ℕ_discrete}
