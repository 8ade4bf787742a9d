-- ===== src/Shared.antt =====
-- The names that the models of the bridges share: the libraries', passed on, and those of the
-- children below. Machine words are plain numbers; byte strings are lists of numbers below 256.
mod Tests
mod Lists
mod Outcome
mod ByteStrings
mod Maps
mod Decimal
mod Wire
mod Words
pub mod Int
pub use Tests.*
pub use Lists.*
pub use Outcome.*
unfoldable pub use ByteStrings.*
pub use Maps.*
unfoldable pub use Decimal.*
pub use Wire.*
pub use Words.*
pub use Prim.Native.Nat.{ℕ, zero, suc, ◌+◌, ◌-◌, ◌*◌, ◌/◌, ◌%◌, ◌^◌, ◌≤◌, ◌<◌}
pub use mathlib.Core.Path.{◌≡◌, refl, sym, ap, ◌∙◌}
pub use mathlib.Core.Logic.{◌≢◌, ◌↔◌, ◌⊎◌, inl, inr}
pub use mathlib.Core.Bool.{Bool, true, false, not, ◌&&◌, ◌||◌}
pub use mathlib.Core.Option.{Option, none, some}
pub use mathlib.Core.List.{List, [], ◌∷◌, ◌++◌, map}
pub use native.Mathlib.Omega.{arith}
