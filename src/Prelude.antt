-- ===== src/Prelude.antt =====
-- The names that the other modules share: the libraries', passed on, and those of the children.
mod Tests
mod Equality
mod Lists
mod Maps
mod Text
mod Int
mod Results
pub use Tests.*
pub use Lists.*
pub use Text.*
pub use Int.*
pub use Results.*
pub use Equality.{Eq, ◌==◌, bytes_eq_iff, ℕ-Eq, Bytes-Eq}
unfoldable pub use Equality.{bytes_eq}
pub use Maps.{Map, lookup-remove, lookup-insert, contains_key-lookup, lookup-none}
unfoldable pub use Maps.{lookup, remove, insert, contains_key, update}
pub use Prim.Native.Nat.{ℕ, zero, suc, ◌+◌, ◌-◌, ◌*◌, ◌/◌, ◌%◌, ◌^◌, ◌≤◌, ◌<◌, min}
pub use mathlib.Core.Path.{◌≡◌, refl, sym, ap, ◌∙◌}
pub use mathlib.Core.Logic.{◌≢◌, ◌↔◌, ◌⊎◌, inl, inr}
pub use mathlib.Core.Bool.{Bool, true, false, not, ◌&&◌, ◌||◌}
pub use mathlib.Core.Option.{Option, none, some}
pub use mathlib.Core.List.{List, [], ◌∷◌, ◌++◌, map}
pub use native.Mathlib.Omega.{arith}
