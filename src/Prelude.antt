-- ===== src/Prelude.antt =====
-- What the models of all packages share: the libraries' names, tests, lists, byte strings, results.
pub mod Tests
pub mod Lists
pub mod Text
pub mod Outcome
pub mod Int
pub mod Decimal
pub mod Address
pub mod Fields
pub use Tests.*
pub use Lists.*
unfoldable pub use Text.*
pub use Outcome.*
pub use Int.*
unfoldable pub use Decimal.*
unfoldable pub use Address.*
unfoldable pub use Fields.*
pub use Prim.Native.Nat.{ℕ, zero, suc, ◌+◌, ◌-◌, ◌*◌, ◌/◌, ◌%◌, ◌^◌, ◌≤◌, ◌<◌, min}
pub use Prim.Native.String.{String}
pub use mathlib.Core.Path.{◌≡◌, refl, sym, ap, subst, fun_ext, ◌∙◌}
pub use mathlib.Core.Logic.{◌≢◌, ◌↔◌, ◌⊎◌, inl, inr}
pub use mathlib.Core.Bool.{Bool, true, false, not, ◌&&◌, ◌||◌}
pub use mathlib.Core.Option.{Option, none, some, some-injective}
pub use mathlib.Core.List.{
  List, [], ◌∷◌, ◌++◌, map, reverse, append-nil, append_assoc, reverse-cons, reverse-reverse,
}
pub use native.Mathlib.Omega.{arith}
