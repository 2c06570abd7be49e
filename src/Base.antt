-- ===== src/Base.antt =====
-- What the models of all packages share: library names passed on, Boolean tests, lists measured
-- by native numbers, Go strings as bytes, Go integers and times, and maps keyed by strings.
mod Tests
mod Lists
pub mod Bytes
pub mod Map
pub mod Int
pub mod Time
pub mod Result
pub mod Decimal
pub mod Base64
pub mod Base32
pub mod Disk
pub mod Split
pub use Tests.*
pub use Lists.*
pub use Prim.Native.Nat.{ℕ, zero, suc, ◌+◌, ◌-◌, ◌*◌, ◌/◌, ◌%◌, ◌^◌, ◌≤◌, ◌<◌}
pub use mathlib.Core.Path.{◌≡◌, refl, sym, ap, ◌∙◌, subst, fun_ext}
pub use mathlib.Core.Logic.{◌≢◌, ◌↔◌, ◌⊎◌, inl, inr}
pub use mathlib.Core.Bool.{Bool, true, false, not, ◌&&◌, ◌||◌}
pub use mathlib.Core.Option.{Option, none, some}
pub use mathlib.Core.List.{List, [], ◌∷◌, ◌++◌, map, reverse}
pub use native.Mathlib.Omega.{arith}
