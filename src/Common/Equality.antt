-- ===== src/Common/Equality.antt =====
-- Equality tests as an interface, for the keys of the maps.
use Prim.Native.Nat.{ℕ}
use mathlib.Core.Path.{◌≡◌, refl}
use mathlib.Core.Logic.{◌↔◌}
use mathlib.Core.Bool.{Bool, true, false, ◌&&◌}
use mathlib.Core.List.{List, [], ◌∷◌}
use native.Mathlib.Omega.{arith}
use nvnmos.Common.Tests.{nat_eq, nat_eq_iff}

-- `Eq` of Rust: a test that decides equality.
pub record Eq {ℓ} (K : Type ℓ) : Type ℓ where
  pub same : K → K → Bool
  pub decides : (j k : K) → (same j k ≡ true) ↔ (j ≡ k)

module _ {ℓ} {K : Type ℓ} ⦃eq : Eq K⦄ where
  infix 50 ◌==◌
  abbrev pub ◌==◌ : K → K → Bool
  j == k = eq.same j k

  pub ==_iff : (j k : K) → (j == k ≡ true) ↔ (j ≡ k)
  ==_iff j k = eq.decides j k

  pub ==_refl : (k : K) → k == k ≡ true
  ==_refl k = (==_iff k k).1 refl

instance abbrev pub nat_Eq : Eq ℕ
nat_Eq = record { same = nat_eq; decides = nat_eq_iff }

unfoldable pub text_eq : List ℕ → List ℕ → Bool
text_eq [] [] = true
text_eq [] (y ∷ ys) = false
text_eq (x ∷ xs) [] = false
text_eq (x ∷ xs) (y ∷ ys) = nat_eq x y && text_eq xs ys

pub text_eq_iff : (xs ys : List ℕ) → (text_eq xs ys ≡ true) ↔ (xs ≡ ys)
unfolding text_eq
text_eq_iff [] [] = ground arith
text_eq_iff [] (y ∷ ys) = ground arith
text_eq_iff (x ∷ xs) [] = ground arith
text_eq_iff (x ∷ xs) (y ∷ ys) = ground (arith, text_eq_iff xs ys)

instance abbrev pub text_Eq : Eq (List ℕ)
text_Eq = record { same = text_eq; decides = text_eq_iff }
