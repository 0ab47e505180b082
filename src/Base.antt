-- ===== src/Base.antt =====
-- The names that every module shares: those of the libraries, passed on, and those of the
-- children, which hold what Python gives the program (ints, slices, exceptions).
mod Tests
mod Lists
pub mod Int
mod Errors
pub mod Texts
pub mod Bits
pub mod Utf8
pub mod Float
pub mod Struct
pub mod Base64
pub mod Json
pub mod BigEndian
pub mod Dates
pub mod Decimal
pub mod Hex
pub mod Strip
pub use Tests.*
pub use Lists.*
pub use Texts.*
pub use Errors.*
pub use Prim.Native.Nat.{ℕ, zero, suc, ◌+◌, ◌-◌, ◌*◌, ◌/◌, ◌%◌, ◌^◌, ◌≤◌, ◌<◌, bit_and, bit_or}
pub use mathlib.Core.Path.{◌≡◌, refl, sym, ap, ◌∙◌}
pub use mathlib.Core.Logic.{◌≢◌, ◌↔◌, ◌⊎◌, inl, inr}
pub use mathlib.Core.Bool.{Bool, true, false, ◌&&◌, ◌||◌, not}
pub use mathlib.Core.Option.{Option, none, some}
pub use mathlib.Core.List.{List, [], ◌∷◌, ◌++◌, map, append_assoc, append-nil}
pub use native.Mathlib.Omega.{arith}
