-- ===== src/Base.antt =====
-- The names that every module of the development shares: the libraries', passed on, and those of
-- the children. `Base.Tests` has the Boolean tests, `Base.Lists` the lists measured by native
-- numbers, `Base.Text` and `Base.Tokens`
-- the string functions of the C library that the program calls.
mod Tests
mod Lists
pub mod Text
pub mod Tokens
pub use Tests.*
pub use Lists.*
pub use Prim.Native.Nat.{Ordering, compare}
pub use Prim.Native.Nat.{ℕ, zero, suc, ◌+◌, ◌-◌, ◌*◌, ◌/◌, ◌%◌, ◌^◌, ◌≤◌, ◌<◌}
pub use mathlib.Core.Path.{◌≡◌, refl, sym, ap, ◌∙◌}
pub use mathlib.Core.Logic.{◌≢◌, ◌↔◌, ◌⊎◌, inl, inr}
pub use mathlib.Core.Bool.{Bool, true, false, not, ◌&&◌, ◌||◌}
pub use mathlib.Core.Option.{Option, none, some}
pub use mathlib.Core.List.{List, [], ◌∷◌, ◌++◌, map}
pub use native.Mathlib.Omega.{arith}
