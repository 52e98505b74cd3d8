-- ===== src/Base.antt =====
-- Names and helpers that every other module shares: the libraries' names, passed on, and those of
-- the children: Boolean tests, lists over the native numbers, outcomes of calls, big-endian words.
mod Tests
mod Lists
mod Slices
mod Fallible
pub mod Buffers
pub mod Text
pub mod Bytes
pub mod Powers
pub use Tests.*
pub use Lists.*
pub use Slices.*
pub use Fallible.*
pub use Prim.Native.Nat.{ℕ, zero, suc, ◌+◌, ◌-◌, ◌*◌, ◌/◌, ◌%◌, ◌^◌, ◌≤◌, ◌<◌, min, bit_and}
pub use Prim.Native.String.{String}
pub use mathlib.Core.Path.{◌≡◌, refl, sym, ap, ap₂, ◌∙◌}
pub use mathlib.Core.Logic.{◌≢◌, ◌↔◌, ◌⊎◌, inl, inr}
pub use mathlib.Core.Bool.{Bool, true, false, not, ◌&&◌, ◌||◌}
pub use mathlib.Core.Option.{Option, none, some}
pub use mathlib.Core.List.{List, [], ◌∷◌, ◌++◌, map, append-nil, append_assoc}
pub use native.Mathlib.Omega.{arith}
