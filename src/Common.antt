-- ===== src/Common.antt =====
-- The names that the other modules share: the libraries' names, passed on, and those of the
-- children (Boolean tests, lists over the native numbers, texts as bytes, equality tests).
mod Tests
mod Lists
mod Equality
mod Bytes
pub use Tests.*
pub use Lists.*
pub use Equality.{Eq, ◌==◌, ==_iff, ==_refl, nat_Eq, text_eq_iff, text_Eq}
unfoldable pub use Equality.{text_eq}
pub use Bytes.{Text, codes}
unfoldable pub use Bytes.{decimal, starts_with}
pub use Bytes.{decimal_injective, append_cancel, all-append, all-decimal}
pub use Prim.Native.Nat.{ℕ, zero, suc, ◌+◌, ◌-◌, ◌*◌, ◌/◌, ◌%◌, ◌^◌, ◌≤◌, ◌<◌, min}
pub use mathlib.Core.Path.{◌≡◌, refl, sym, ap, ◌∙◌, subst}
pub use mathlib.Core.Logic.{◌≢◌, ◌↔◌, ◌⊎◌, inl, inr}
pub use mathlib.Core.Bool.{Bool, true, false, ◌&&◌, ◌||◌, not, false≢true}
pub use mathlib.Core.Option.{Option, none, some}
pub use mathlib.Core.List.{List, [], ◌∷◌, ◌++◌, map}
pub use native.Mathlib.Omega.{arith}
