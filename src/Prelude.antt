-- ===== src/Prelude.antt =====
-- The names that the other modules share: the libraries' passed on, Boolean tests, lists measured
-- by native numbers, results, maps and text.
mod Tests
mod Lists
mod Results
mod Maps
mod Chars
mod Trim
mod Anyhow
mod Collect
pub use Tests.*
pub use Lists.*
pub use Results.*
unfoldable pub use Maps.*
unfoldable pub use Chars.*
unfoldable pub use Trim.*
pub use Anyhow.*
unfoldable pub use Collect.*
pub use Prim.Native.Nat.{ℕ, zero, suc, ◌+◌, ◌-◌, ◌*◌, ◌/◌, ◌%◌, ◌^◌, ◌≤◌, ◌<◌}
pub use Prim.Native.String.{String}
pub use mathlib.Core.Path.{◌≡◌, refl, sym, ap, ◌∙◌}
pub use mathlib.Core.Logic.{◌≢◌, ◌↔◌, ◌⊎◌, inl, inr}
pub use mathlib.Core.Bool.{Bool, true, false, not, ◌&&◌, ◌||◌, false≢true}
pub use mathlib.Core.Option.{Option, none, some}
pub use mathlib.Core.List.{List, [], ◌∷◌, ◌++◌, map}
pub use native.Mathlib.Omega.{arith}
