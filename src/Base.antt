-- ===== src/Base.antt =====
-- The names that the other modules share: the libraries' own, passed on, and those of the
-- children (tests on numbers, lists as arrays, runs of C code).
pub mod Tests
pub mod Lists
pub mod Results
pub mod Masks
pub mod Windows
pub use Tests.*
unfoldable pub use Lists.*
pub use Results.*
pub use Masks.{power_pos, bit_and_mask, power_of_two, power-dvd, power-le}
unfoldable pub use Windows.*
pub use Prim.Native.Nat.{ℕ, min, bit_and, zero, suc, ◌+◌, ◌-◌, ◌*◌, ◌/◌, ◌%◌, ◌^◌, ◌≤◌, ◌<◌}
pub use mathlib.Core.Path.{◌≡◌, refl, sym, ap, ◌∙◌}
pub use mathlib.Core.Logic.{◌≢◌, ◌↔◌, ◌⊎◌, inl, inr}
pub use mathlib.Core.Bool.{Bool, true, false, ◌&&◌, ◌||◌}
pub use mathlib.Core.Option.{Option, none, some}
pub use mathlib.Core.List.{List, [], ◌∷◌, ◌++◌, append_assoc, append-nil}
pub use native.Mathlib.Omega.{arith}
