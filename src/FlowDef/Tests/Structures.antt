-- ===== src/FlowDef/Tests/Structures.antt =====
-- Structures as lists of fields.
use nvnmos.Common.{
  ◌==◌, nat_Eq, text_Eq, Text, ◌≡◌, refl, sym, ap, ◌∙◌, subst, ◌⊎◌, inl, inr, Bool, true, false,
  false≢true, Option, none, some, List, ◌∷◌, arith, if◌then◌else◌, Bool-cases,
}
use nvnmos.FlowDef.Json.{is_i32, ℤ, pos}
use nvnmos.FlowDef.Caps.{find_field, as_string, as_fraction, GValue, GstLib, string, int, fraction}

abbrev I32Pair : ℤ × ℤ → Type 0
I32Pair (n, d) = (is_i32 n ≡ true) × (is_i32 d ≡ true)

abbrev Ratio : Type 0
Ratio = (p : ℤ × ℤ) × I32Pair p

abbrev ratio :
    (n d : ℤ)
    → (is_i32 n ≡ true) ⊎ (is_i32 n ≡ false)
    → (is_i32 d ≡ true) ⊎ (is_i32 d ≡ false)
    → Ratio
ratio n d (inl a) (inl b) = ((n, d), (a, b))
ratio n d (inr a) b = ((pos 0, pos 1), (refl, refl))
ratio n d (inl a) (inr b) = ((pos 0, pos 1), (refl, refl))

abbrev new_ratio : ℤ → ℤ → Ratio
new_ratio n d = ratio n d (Bool-cases (is_i32 n)) (Bool-cases (is_i32 d))

ratio_self :
    (n d : ℤ) (a : is_i32 n ≡ true) (b : is_i32 d ≡ true)
    (x : (is_i32 n ≡ true) ⊎ (is_i32 n ≡ false)) (y : (is_i32 d ≡ true) ⊎ (is_i32 d ≡ false))
    → ratio n d x y ≡ ((n, d), (a, b))
ratio_self n d a b (inl x) (inl y) = ap (λ z. ((n, d), z)) (one_proof (x, y) (a, b))
  where
    one_proof : IsProp (I32Pair (n, d))
    one_proof = hlevel
ratio_self n d a b (inr x) y = absurd (false≢true (sym x ∙ a))
ratio_self n d a b (inl x) (inr y) = absurd (false≢true (sym y ∙ b))

pub new_ratio_self : (r : Ratio) → new_ratio r.0.0 r.0.1 ≡ r
new_ratio_self ((n, d), (a, b)) = ratio_self n d a b (Bool-cases (is_i32 n)) (Bool-cases (is_i32 d))

abbrev Fields : Type 0
Fields = Text × List (Text × GValue Ratio)

abbrev in_i32 : Option (GValue Ratio) → Option ℤ
in_i32 (some (int n)) = if is_i32 n then some n else none
in_i32 _ = none

abbrev int_in : Fields → Text → Option ℤ
int_in s k = in_i32 (find_field k s.1)

pub in_i32_range : (v : Option (GValue Ratio)) (n : ℤ) → in_i32 v ≡ some n → is_i32 n ≡ true
in_i32_range none n h = ground arith
in_i32_range (some (string t)) n h = ground arith
in_i32_range (some (fraction f)) n h = ground arith
in_i32_range (some (int m)) n h = elim (Bool-cases (is_i32 m)) [
  | inl q ↦ let same : m ≡ n = ground (arith, q) in subst (λ i. is_i32 i ≡ true) same q
  | inr q ↦ absurd (ground (arith, q))
]

pub int_in-build :
    (n : Text) (fs : List (Text × GValue Ratio)) (k : Text) (i : ℤ)
    → find_field k fs ≡ some (int i)
    → is_i32 i ≡ true
    → int_in (n, fs) k ≡ some i
int_in-build n fs k i h r = rw h (rw r refl)

pub string_at :
    (t : Text) (b : Bool) (old : Option (GValue Ratio))
    → as_string (elim b [ true ↦ some (GValue.string t) | false ↦ old ])
      ≡ (if b then some t else as_string old)
string_at t true old = refl
string_at t false old = refl

abbrev pub fields : GstLib
fields = record {
  Structure = Fields;
  Fraction = Ratio;
  structure_name = λ s. s.0;
  get_string = λ s k. as_string (find_field k s.1);
  get_i32 = int_in;
  get_fraction = λ s k. as_fraction (find_field k s.1);
  numer = λ f. f.0.0;
  denom = λ f. f.0.1;
  new_fraction = new_ratio;
  new-numer-denom = new_ratio_self;
  build = λ n fs. (n, fs);
  structure_name-build = λ n fs. refl;
  get_string-build = λ n fs k. refl;
  get_i32-build = int_in-build;
  get_fraction-build = λ n fs k. refl;
  get_i32_range = λ s k n h. in_i32_range (find_field k s.1) n h;
  numer_range = λ f. f.1.0;
  denom_range = λ f. f.1.1;
  set_string = λ s k t. (s.0, (k, string t) ∷ s.1);
  structure_name-set_string = λ s k t. refl;
  get_string-set_string = λ s k t j. string_at t (k == j) (find_field j s.1);
}
