-- ===== src/Common.antt =====
-- What the modules share: the libraries' names, Python's conditions and integers, tables, texts
-- and JSON values.
pub mod Tests
pub mod Ints
pub mod Rows
pub mod Membership
pub mod Json
pub mod Text
pub mod Strings
pub mod Values
pub use Tests.*
unfoldable pub use Ints.*
pub use Rows.*
pub use Membership.*
pub use Prim.Native.Nat.{ℕ, zero, suc, ◌+◌, ◌-◌, ◌*◌, ◌≤◌, ◌<◌}
pub use Prim.Native.String.{String}
pub use mathlib.Core.Path.{◌≡◌, refl, sym, ap, ◌∙◌}
pub use mathlib.Core.Logic.{◌≢◌, ◌↔◌, ◌⊎◌, inl, inr}
pub use mathlib.Core.Bool.{Bool, true, false, not, ◌&&◌, ◌||◌}
pub use mathlib.Core.Option.{Option, none, some}
pub use mathlib.Core.List.{List, [], ◌∷◌, ◌++◌, map}
pub use native.Mathlib.Omega.{arith}
