-- ===== src/FlowDef/Tests/Values.antt =====
-- Values of JSON as their own texts: a mark for the variant, then the parts, each byte of a part
-- behind a one and each part before a zero.
use nvnmos.Common.{
  ◌==◌, ==_iff, nat_Eq, text_Eq, Text, ℕ, zero, suc, ◌≡◌, refl, sym, ap, ◌∙◌, inl, inr, Bool, true,
  false, ◌&&◌, false≢true, Option, none, some, List, [], ◌∷◌, arith, nat_eq, if◌then◌else◌,
  Bool-cases,
}
use nvnmos.FlowDef.Json.{ℤ, JsonLib, pos, negsuc}

abbrev join : Text → Text → Text
join [] rest = 0 ∷ rest
join (c ∷ t) rest = 1 ∷ c ∷ join t rest

abbrev joined : List Text → Text
joined [] = []
joined (t ∷ ts) = join t (joined ts)

abbrev longer : ℕ → List Text → List Text
longer c [] = (c ∷ []) ∷ []
longer c (t ∷ ts) = (c ∷ t) ∷ ts

abbrev parts : Text → List Text
parts [] = []
parts (zero ∷ rest) = [] ∷ parts rest
parts (suc n ∷ []) = []
parts (suc n ∷ c ∷ rest) = longer c (parts rest)

parts-join : (t rest : Text) → parts (join t rest) ≡ t ∷ parts rest
parts-join [] rest = refl
parts-join (c ∷ t) rest = rw (parts-join t rest) refl

pub parts-joined : (ts : List Text) → parts (joined ts) ≡ ts
parts-joined [] = refl
parts-joined (t ∷ ts) = parts-join t (joined ts) ∙ ap (λ us. t ∷ us) (parts-joined ts)

abbrev Entries : Type 0
Entries = List (Text × Text)

abbrev flat : Entries → List Text
flat [] = []
flat ((k, v) ∷ o) = k ∷ v ∷ flat o

abbrev paired : List Text → Entries
paired [] = []
paired (k ∷ []) = []
paired (k ∷ v ∷ ts) = (k, v) ∷ paired ts

pub paired-flat : (o : Entries) → paired (flat o) ≡ o
paired-flat [] = refl
paired-flat ((k, v) ∷ o) = ap (λ p. (k, v) ∷ p) (paired-flat o)

abbrev as_array : Text → Option (List Text)
as_array (m ∷ t) = if nat_eq m 2 then some (parts t) else none
as_array [] = none

abbrev as_object : Text → Option Entries
as_object (m ∷ t) = if nat_eq m 5 then some (paired (parts t)) else none
as_object [] = none

abbrev as_str : Text → Option Text
as_str (m ∷ t) = if nat_eq m 1 then some t else none
as_str [] = none

abbrev number : ℤ → Text
number (pos n) = 3 ∷ n ∷ []
number (negsuc n) = 4 ∷ n ∷ []

abbrev as_i64 : Text → Option ℤ
as_i64 (m ∷ n ∷ t) =
    if nat_eq m 3 then some (pos n) else if nat_eq m 4 then some (negsuc n) else none
as_i64 _ = none

pub as_i64-number : (n : ℤ) → as_i64 (number n) ≡ some n
as_i64-number (pos n) = refl
as_i64-number (negsuc n) = refl

abbrev get : Entries → Text → Option Text
get [] k = none
get ((j, v) ∷ o) k = if j == k then some v else get o k

abbrev remove : Entries → Text → Entries
remove [] k = []
remove ((j, v) ∷ o) k = let rest = remove o k in if j == k then rest else (j, v) ∷ rest

-- Where one test holds the other does not, so their order is one.
same_test :
    (b : Bool) (g v : Option Text)
    → (if b then none else g) ≡ (if b then none else if b then v else g)
same_test true g v = refl
same_test false g v = refl

apart :
    (a b : Bool) (g v : Option Text)
    → a && b ≡ false
    → (if a then v else if b then none else g) ≡ (if b then none else if a then v else g)
apart true false g v h = refl
apart true true g v h = ground arith
apart false b g v h = refl

not_both : (i k j : Text) → i == k ≡ false → (i == j) && (k == j) ≡ false
not_both i k j h = elim (Bool-cases (i == j)) [
  | inl q ↦ elim (Bool-cases (k == j)) [
    | inl r ↦
        let same = (==_iff i j).0 q ∙ sym ((==_iff k j).0 r) in
        absurd (false≢true (sym h ∙ (==_iff i k).1 same))
    | inr r ↦ rw (q, r) refl
  ]
  | inr q ↦ rw q refl
]

pub get-remove :
    (o : Entries) (k j : Text) → get (remove o k) j ≡ (if k == j then none else get o j)
get-remove [] k j = ground arith
get-remove ((i, v) ∷ o) k j = elim (Bool-cases (i == k)) [
  | inl h ↦
      rw h (get-remove o k j ∙ rw (sym ((==_iff i k).0 h)) (same_test (i == j) (get o j) (some v)))
  | inr h ↦ rw (h, get-remove o k j) (apart (i == j) (k == j) (get o j) (some v) (not_both i k j h))
]

abbrev pub texts : JsonLib
texts = record {
  Value = Text;
  Object = Entries;
  from_str = some;
  to_string = λ v. v;
  is_exact = λ v. true;
  from_str-to_string = λ v e. refl;
  object = λ o. 5 ∷ joined (flat o);
  array = λ vs. 2 ∷ joined vs;
  string = λ t. 1 ∷ t;
  as_object = as_object;
  as_array = as_array;
  as_str = as_str;
  number = number;
  as_i64 = as_i64;
  as_i64-number = λ n h. as_i64-number n;
  as_object-object = λ o. ap some (ap paired (parts-joined (flat o)) ∙ paired-flat o);
  as_array-array = λ vs. ap some (parts-joined vs);
  as_str-string = λ t. refl;
  new = [];
  get = get;
  insert = λ o k v. (k, v) ∷ o;
  remove = remove;
  get-new = λ k. refl;
  get-insert = λ o k j v. refl;
  get-remove = get-remove;
}
