-- ===== src/Base.antt =====
-- The names that every component shares: the libraries' names, passed on, and those of the children.
mod Tests
mod Strings
mod Lists
mod Order
mod Results
pub mod Int
pub use Tests.*
unfoldable pub use Strings.*
pub use Lists.*
unfoldable pub use Order.*
unfoldable pub use Results.*
pub use Prim.Native.Nat.{compare, Ordering, ℕ, zero, suc, ◌+◌, ◌-◌, ◌*◌, ◌/◌, ◌%◌, ◌≤◌, ◌<◌}
pub use mathlib.Core.Path.{◌≡◌, refl, sym, subst, ap, ◌∙◌, ◌≡⟨◌⟩◌, ◌∎}
pub use mathlib.Core.Logic.{◌≢◌, ◌↔◌, ◌⊎◌, inl, inr}
pub use mathlib.Core.Bool.{Bool, true, false, not, ◌&&◌, ◌||◌}
pub use mathlib.Core.Option.{Option, none, some}
pub use mathlib.Core.List.{List, [], ◌∷◌, ◌++◌, map}
pub use native.Mathlib.Omega.{arith}
