-- ===== src/HashMap.antt =====
-- `std::collections::HashMap` and `HashSet`, over keys with an equality test. The representation
-- is private: clients have the laws of `map_laws` and those on `count`, `keys_where` and `values`.
-- An entry is inserted at the head, in place of an older one with its key. Rust leaves the order of
-- iteration open; `keys_where` and `values` list the newest first.
mod Assoc
use Assoc.{
  lookup, without, lookup-without, lookup-without_self, Distinct, without-Distinct, weight, tally,
  tally-without, names, any-names, fields, any-fields, tally_zero,
}
use nvnmos.Common.{
  ℕ, ◌+◌, ◌≡◌, refl, Eq, ◌==◌, Bool, true, false, Option, none, some, List, [], ◌∷◌, arith,
  if◌then◌else◌, is_some, any,
}

pub record HashMap {ℓ κ} (K : Type ℓ) ⦃e : Eq K⦄ (V : Type κ) : Type (ℓ ⊔ κ) where
  entries : List (K × V)
  distinct : Distinct entries

module _ {ℓ κ} {K : Type ℓ} ⦃e : Eq K⦄ {V : Type κ} where
  -- `HashMap::new`
  unfoldable pub empty : HashMap K V
  empty = record { entries = []; distinct = tt }

  -- `HashMap::get`
  unfoldable pub get : HashMap K V → K → Option V
  unfolding lookup
  get m k = lookup k m.entries

  -- `HashMap::contains_key`, `HashSet::contains`
  abbrev pub contains_key : HashMap K V → K → Bool
  contains_key m k = is_some (get m k)

  -- `HashMap::remove`, for its effect on the map
  unfoldable pub remove : HashMap K V → K → HashMap K V
  unfolding without
  remove m k = record {
    entries = without k m.entries;
    distinct = without-Distinct k m.entries m.distinct;
  }

  -- `HashMap::insert`
  unfoldable pub insert : HashMap K V → K → V → HashMap K V
  unfolding without
  insert m k v = record {
    entries = (k, v) ∷ without k m.entries;
    distinct = (lookup-without_self k m.entries, without-Distinct k m.entries m.distinct);
  }

  -- The number of values that pass a test.
  unfoldable pub count : (V → Bool) → HashMap K V → ℕ
  unfolding tally
  count p m = tally p m.entries

  -- `iter().filter(…).map(|(k, _)| k)`
  unfoldable pub keys_where : (K → V → Bool) → HashMap K V → List K
  unfolding names
  keys_where p m = names p m.entries

  -- `values()`
  unfoldable pub values : HashMap K V → List V
  unfolding fields
  values m = fields m.entries

  pub get-empty : (k : K) → get empty k ≡ none
  unfolding get empty lookup
  get-empty k = refl

  pub get-remove :
      (m : HashMap K V) (k j : K) → get (remove m k) j ≡ (if k == j then none else get m j)
  unfolding get remove
  get-remove m k j = lookup-without k j m.entries

  pub get-insert :
      (m : HashMap K V) (k j : K) (v : V)
      → get (insert m k v) j ≡ (if k == j then some v else get m j)
  unfolding get insert lookup
  get-insert m k j v = ground (arith, lookup-without k j m.entries)

  pub count-remove :
      (p : V → Bool) (m : HashMap K V) (k : K)
      → count p (remove m k) + weight p (get m k) ≡ count p m
  unfolding count remove get
  count-remove p m k = tally-without p k m.entries m.distinct

  pub count-insert :
      (p : V → Bool) (m : HashMap K V) (k : K) (v : V)
      → count p (insert m k v) + weight p (get m k) ≡ count p m + weight p (some v)
  unfolding count insert get tally
  count-insert p m k v = ground (arith, tally-without p k m.entries m.distinct)

  -- Nothing counts if no value in the map passes.
  pub count_zero :
      (p : V → Bool) (m : HashMap K V)
      → ((k : K) (v : V) → get m k ≡ some v → p v ≡ false)
      → count p m ≡ 0
  unfolding count get
  count_zero p m h = tally_zero p m.entries m.distinct h

  -- A key is listed exactly when its value passes the test.
  pub any-keys_where :
      (p : K → V → Bool) (m : HashMap K V) (j : K)
      → any (λ k. k == j) (keys_where p m) ≡ (elim (get m j) [ none ↦ false | some v ↦ p j v ])
  unfolding keys_where get
  any-keys_where p m j = any-names p j m.entries m.distinct

  -- A test that no value passes fails on each value.
  pub any-values :
      (p : V → Bool) (m : HashMap K V) (k : K) (v : V)
      → any p (values m) ≡ false
      → get m k ≡ some v
      → p v ≡ false
  unfolding values get
  any-values p m k v = any-fields p k v m.entries

pub count-empty {ℓ κ} :
    (K : Type ℓ) ⦃e : Eq K⦄ {V : Type κ} (p : V → Bool) → count p (empty {K = K}) ≡ 0
unfolding count empty tally
count-empty K p = refl

pub ruleset map_laws = (get-empty, get-remove, get-insert)
