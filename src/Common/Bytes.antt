-- ===== src/Common/Bytes.antt =====
-- Rust strings as lists of bytes, and `format!("{n}")` of an unsigned integer.
use Prim.Native.Nat.{ℕ, zero, suc, ◌+◌, ◌-◌, ◌*◌, ◌/◌, ◌%◌, ◌<◌}
use Prim.Native.Char.{code}
use Prim.Native.String.{String}
use mathlib.Core.Path.{◌≡◌, refl, ap, sym, ◌∙◌}
use mathlib.Core.Bool.{Bool, true, false, ◌&&◌}
use mathlib.Core.Logic.{inl, inr}
use mathlib.Core.List.{List, [], ◌∷◌, ◌++◌, foldl, foldl-append}
use native.Mathlib.Omega.{arith}
use nvnmos.Common.Lists.{all}
use nvnmos.Common.Tests.{ltb, nat_eq, if◌then◌else◌, Bool-cases}

abbrev pub Text : Type 0
Text = List ℕ

-- The bytes of an ASCII literal.
abbrev pub codes : String → Text
codes String.[] = []
codes (String.◌∷◌ c s) = code c ∷ codes s

digits : ℕ → ℕ → Text
digits zero n = []
digits (suc fuel) n =
    let more = digits fuel (n / 10) ++ (b'0' + n % 10) ∷ [] in
    if ltb n 10 then (b'0' + n) ∷ [] else more

-- The decimal digits of `n`, with no leading zero.
unfoldable pub decimal : ℕ → Text
unfolding digits
decimal n = digits (suc n) n

pub all-append :
    (p : ℕ → Bool) (xs ys : Text) → all p xs ≡ true → all p ys ≡ true → all p (xs ++ ys) ≡ true
all-append p [] ys h k = k
all-append p (x ∷ xs) ys h k = ground (arith, all-append p xs ys)

all-digits :
    (p : ℕ → Bool) (fuel n : ℕ)
    → ((d : ℕ) → d < 10 → p (b'0' + d) ≡ true)
    → all p (digits fuel n) ≡ true
unfolding digits
all-digits p zero n h = refl
all-digits p (suc fuel) n h = elim (Bool-cases (ltb n 10)) [
  | inl small ↦ rw small (ground (arith, h n))
  | inr large ↦ rw large (
      all-append p (digits fuel (n / 10)) ((b'0' + n % 10) ∷ []) (all-digits p fuel (n / 10) h)
        (rw (h (n % 10) (omega arith)) refl))
]

-- A test that every digit passes holds of a decimal number.
pub all-decimal :
    (p : ℕ → Bool) (n : ℕ) → ((d : ℕ) → d < 10 → p (b'0' + d) ≡ true) → all p (decimal n) ≡ true
unfolding decimal
all-decimal p n h = all-digits p (suc n) n h

read : Text → ℕ
read = foldl (λ acc c. acc * 10 + (c - b'0')) 0

read-digits : (fuel n : ℕ) → n < fuel → read (digits fuel n) ≡ n
unfolding digits read
read-digits zero n h = elim h [ ]
read-digits (suc fuel) n h = elim (Bool-cases (ltb n 10)) [
  | inl small ↦ rw small (omega arith)
  | inr large ↦
      rw (large, foldl-append)
        (let ih : read (digits fuel (n / 10)) ≡ n / 10 = read-digits fuel (n / 10) (ground arith) in
          ground (arith, ih))
]

pub decimal_injective : (n m : ℕ) → decimal n ≡ decimal m → n ≡ m
unfolding decimal
decimal_injective n m e =
    sym (read-digits (suc n) n (omega arith)) ∙ ap read e ∙ read-digits (suc m) m (omega arith)

pub append_cancel : (p xs ys : Text) → p ++ xs ≡ p ++ ys → xs ≡ ys
append_cancel [] xs ys e = e
append_cancel (c ∷ p) xs ys e = append_cancel p xs ys (cc)

-- `str::starts_with`
unfoldable pub starts_with : Text → Text → Bool
starts_with [] s = true
starts_with (c ∷ p) [] = false
starts_with (c ∷ p) (d ∷ s) = nat_eq c d && starts_with p s
