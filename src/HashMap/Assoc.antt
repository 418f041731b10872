-- ===== src/HashMap/Assoc.antt =====
-- Association lists, the representation of `HashMap`.
use nvnmos.Common.{
  ℕ, ◌+◌, ◌≡◌, Eq, ◌==◌, ==_iff, Bool, true, false, Option, none, some, List, [], ◌∷◌, ==_refl,
  arith, if◌then◌else◌, any, refl,
}

module _ {ℓ κ} {K : Type ℓ} {V : Type κ} ⦃e : Eq K⦄ where
  unfoldable pub lookup : K → List (K × V) → Option V
  lookup k [] = none
  lookup k ((j, v) ∷ rest) = elim (j == k) [ true ↦ some v | false ↦ lookup k rest ]

  unfoldable pub without : K → List (K × V) → List (K × V)
  without k [] = []
  without k ((j, v) ∷ rest) = elim (j == k) [
    | true ↦ without k rest
    | false ↦ (j, v) ∷ without k rest
  ]

  pub lookup-without :
      (k j : K) (l : List (K × V)) → lookup j (without k l) ≡ (if k == j then none else lookup j l)
  unfolding lookup without
  lookup-without k j [] = ground arith
  lookup-without k j ((i, v) ∷ rest) =
      ground (arith, ==_iff i j, ==_iff i k, lookup-without k j rest, ==_iff k j)

  pub lookup-without_self : (k : K) (l : List (K × V)) → lookup k (without k l) ≡ none
  lookup-without_self k l = ground (arith, lookup-without k k l, ==_refl k)

  -- No key stands twice.
  abbrev pub Distinct : List (K × V) → Type κ
  Distinct [] = Unit
  Distinct ((k, v) ∷ l) = (lookup k l ≡ none) × Distinct l

  pub without-Distinct : (k : K) (l : List (K × V)) → Distinct l → Distinct (without k l)
  unfolding without
  without-Distinct k [] d = tt
  without-Distinct k ((j, v) ∷ l) d = ground (arith, without-Distinct k l d.1, lookup-without k j l)

module _ {ℓ} {V : Type ℓ} where
  abbrev pub weight : (V → Bool) → Option V → ℕ
  weight p none = 0
  weight p (some v) = if p v then 1 else 0

module _ {ℓ κ} {K : Type ℓ} {V : Type κ} where
  unfoldable pub tally : (V → Bool) → List (K × V) → ℕ
  tally p [] = 0
  tally p ((k, v) ∷ l) = weight p (some v) + tally p l

  -- The keys of the entries that pass a test.
  unfoldable pub names : (K → V → Bool) → List (K × V) → List K
  names p [] = []
  names p ((k, v) ∷ l) = let rest = names p l in if p k v then k ∷ rest else rest

  unfoldable pub fields : List (K × V) → List V
  fields [] = []
  fields ((k, v) ∷ l) = v ∷ fields l

module _ {ℓ κ} {K : Type ℓ} {V : Type κ} ⦃e : Eq K⦄ where
  tally_absent :
      (p : V → Bool) (k : K) (l : List (K × V))
      → lookup k l ≡ none
      → tally p (without k l) ≡ tally p l
  unfolding tally without lookup
  tally_absent p k [] h = refl
  tally_absent p k ((j, v) ∷ l) h = ground (arith, tally_absent p k l)

  pub tally-without :
      (p : V → Bool) (k : K) (l : List (K × V))
      → Distinct l
      → tally p (without k l) + weight p (lookup k l) ≡ tally p l
  unfolding tally without lookup
  tally-without p k [] d = refl
  tally-without p k ((j, v) ∷ l) d =
      ground (arith, tally-without p k l d.1, tally_absent p k l, ==_iff j k)

  pub any-names :
      (p : K → V → Bool) (j : K) (l : List (K × V))
      → Distinct l
      → any (λ k. k == j) (names p l) ≡ (elim (lookup j l) [ none ↦ false | some v ↦ p j v ])
  unfolding names lookup
  any-names p j [] d = refl
  any-names p j ((k, v) ∷ l) d = ground (arith, any-names p j l d.1, ==_iff k j)

  pub any-fields :
      (p : V → Bool) (k : K) (v : V) (l : List (K × V))
      → any p (fields l) ≡ false
      → lookup k l ≡ some v
      → p v ≡ false
  unfolding fields lookup
  any-fields p k v [] h q = cc
  any-fields p k v ((j, w) ∷ l) h q = ground (arith, any-fields p k v l)

  pub tally_zero :
      (p : V → Bool) (l : List (K × V))
      → Distinct l
      → ((k : K) (v : V) → lookup k l ≡ some v → p v ≡ false)
      → tally p l ≡ 0
  unfolding tally lookup
  tally_zero p [] d h = refl
  tally_zero p ((k, v) ∷ l) d h = ground (arith, tally_zero p l d.1 deeper, h k v, ==_refl k)
    where
      deeper : (j : K) (w : V) → lookup j l ≡ some w → p w ≡ false
      deeper j w q = ground (arith, h j w, ==_iff k j, d.0)
