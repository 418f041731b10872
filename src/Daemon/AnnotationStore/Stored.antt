-- ===== src/Daemon/AnnotationStore/Stored.antt =====
-- What `AnnotationStore` of rust/nvnmosd/src/annotation_store.rs keeps.
use nvnmos.Common.{
  ◌==◌, nat_Eq, text_Eq, Text, ◌≤◌, ◌<◌, ◌≡◌, refl, sym, ap, ◌∙◌, subst, ◌⊎◌, inl, inr, Bool, true,
  false, ◌&&◌, not, Option, none, some, List, [], ◌∷◌, arith, ltb, if◌then◌else◌, Bool-cases,
  Option-cases, is_some,
}
use nvnmos.HashMap
use nvnmos.HashMap.{values, get-remove, get-insert, count-remove, count-insert, HashMap}
use nvnmos.Wrapper.{resource_type_Eq, Update, AnnotationTag, Annotation, AnnotationUpdate}
use nvnmos.Daemon.AnnotationStore.{
  key_Eq, blank_annotation, create_operation, present_value, retag, tags_at_create,
  annotation_at_create, merge_field, merge_tags, merge, is_blank, update_key, updated, apply, Key,
  Inner,
}

-- A field that is kept has its value, and one that is not has none.
abbrev pub IsField : Update → Option Text → Type 0
IsField Update.unchanged value = is_some value ≡ true
IsField Update.set value = false ≡ true
IsField Update.reset value = value ≡ none

abbrev pub IsTags : Update → List AnnotationTag → Type 0
IsTags Update.unchanged [] = false ≡ true
IsTags Update.unchanged (tag ∷ tags) = retag Update.unchanged (tag ∷ tags) ≡ tag ∷ tags
IsTags Update.set tags = false ≡ true
IsTags Update.reset tags = tags ≡ []

-- The form in which an annotation is stored: something is annotated.
pub record IsStored (a : Annotation) : Type 0 where
  pub label : IsField a.label_update a.label
  pub description : IsField a.description_update a.description
  pub tags : IsTags a.tags_update a.tags

-- The store is within its limit, and each entry is in that form and not blank.
pub record IsStore (s : Inner) : Type 0 where
  pub within : HashMap.count (λ _. true) s.entries ≤ s.limit
  pub form :
      (k : Key) (a : Annotation)
      → HashMap.get s.entries k ≡ some a
      → IsStored a × (is_blank a ≡ false)

merge_field-IsField :
    (u : Update) (value : Option Text) (v : Update) (old : Option Text)
    → IsField v old
    → IsField (merge_field u value (v, old)).0 (merge_field u value (v, old)).1
unfolding merge_field
merge_field-IsField Update.unchanged value v old i = i
merge_field-IsField Update.set none v old i = refl
merge_field-IsField Update.set (some x) v old i = refl
merge_field-IsField Update.reset value v old i = refl

retag_again : (u v : Update) (tags : List AnnotationTag) → retag u (retag v tags) ≡ retag u tags
retag_again u v [] = refl
retag_again u v (tag ∷ tags) =
    ap
      (λ (x : List AnnotationTag).
        record { key = tag.key; values_update = u; values = tag.values } ∷ x)
      (retag_again u v tags)

merge_tags-IsTags :
    (u : Update) (tags : List AnnotationTag) (v : Update) (old : List AnnotationTag)
    → IsTags v old
    → IsTags (merge_tags u tags (v, old)).0 (merge_tags u tags (v, old)).1
unfolding merge_tags
merge_tags-IsTags Update.unchanged tags v old i = i
merge_tags-IsTags Update.set [] v old i = refl
merge_tags-IsTags Update.set (tag ∷ tags) v old i =
    retag_again Update.unchanged Update.unchanged (tag ∷ tags)
merge_tags-IsTags Update.reset tags v old i = refl

merge-IsStored : (entry update : Annotation) → IsStored entry → IsStored (merge entry update)
unfolding merge
merge-IsStored entry update i = record {
  label =
      merge_field-IsField update.label_update update.label entry.label_update entry.label i.label;
  description =
      merge_field-IsField update.description_update update.description entry.description_update
        entry.description i.description;
  tags = merge_tags-IsTags update.tags_update update.tags entry.tags_update entry.tags i.tags;
}

blank-IsStored : IsStored blank_annotation
blank-IsStored = record { label = refl; description = refl; tags = refl }

pub updated-IsStored :
    (s : Inner) (seed : Text) (update : AnnotationUpdate)
    → IsStore s
    → IsStored (updated s seed update)
unfolding updated
updated-IsStored s seed update i =
    elim (Option-cases (HashMap.get s.entries (update_key seed update))) [
      | inl q ↦ rw q (merge-IsStored blank_annotation update.annotation blank-IsStored)
      | inr (a, q) ↦
          rw q (merge-IsStored a update.annotation (i.form (update_key seed update) a q).0)
    ]

-- An entry is deleted, or is refused because the store is full, or is stored.
pub apply_cases {ℓ} :
    (s : Inner) (seed : Text) (update : AnnotationUpdate) (P : Inner × Bool → Type ℓ)
    → (is_blank (updated s seed update) ≡ true
        → P (record s { entries = HashMap.remove s.entries (update_key seed update) }, true))
    → (is_blank (updated s seed update) ≡ false
        → HashMap.get s.entries (update_key seed update) ≡ none
        → s.limit ≤ HashMap.count (λ _. true) s.entries
        → P (s, false))
    → (is_blank (updated s seed update) ≡ false
        → ((HashMap.get s.entries (update_key seed update) ≡ none)
            → HashMap.count (λ _. true) s.entries < s.limit)
        → P (
          record s {
            entries = HashMap.insert s.entries (update_key seed update) (updated s seed update);
          },
          true,
        ))
    → P (apply s seed update)
unfolding apply
apply_cases s seed update P deleted refused stored =
    elim (Bool-cases (is_blank (updated s seed update))) [
      | inl b ↦ rw (b, apply) (deleted b)
      | inr b ↦
          elim (Bool-cases (
            not (HashMap.contains_key s.entries (update_key seed update))
            && not (ltb (HashMap.count (λ _. true) s.entries) s.limit))) [
              | inl f ↦ rw (b, apply) (rw f (refused b (ground (arith, f)) (ground (arith, f))))
              | inr r ↦ rw (b, apply) (rw r (stored b (λ n. ground (arith, r, n))))
            ]
    ]

-- An update, accepted or not, leaves the store within its limit, and its entries in the form in which
-- they are stored, with something annotated in each.
pub apply-IsStore :
    (s : Inner) (seed : Text) (update : AnnotationUpdate)
    → IsStore s
    → IsStore (apply s seed update).0
apply-IsStore s seed update i =
    let key = update_key seed update in
    let new = updated s seed update in
    apply_cases s seed update (λ r. IsStore r.0)
      (λ b. record {
        within = ground (arith, i.within, count-remove (λ _. true) s.entries key);
        form = λ k a h. i.form k a (ground (arith, h, get-remove s.entries key k));
      })
      (λ b n f. i)
      (λ b room. record {
        within = ground (
          arith,
          i.within,
          room,
          Option-cases (HashMap.get s.entries key),
          count-insert (λ _. true) s.entries key new,
        );
        form = λ k a h. elim (Bool-cases (key == k)) [
          | inl same ↦
              let e : some new ≡ some a = sym (get-insert s.entries key k new ∙ rw same refl) ∙ h in
              subst (λ x. IsStored x × (is_blank x ≡ false)) (cc)
                (updated-IsStored s seed update i, b)
          | inr other ↦ i.form k a (ground (arith, h, other, get-insert s.entries key k new))
        ];
      })

-- An accepted update can be read back: its key gives what the update makes of the entry, or nothing
-- if nothing is left annotated, and no other key changes. A refused one changes nothing, and is
-- refused because its key is new and the store is full.
pub apply-get_annotation :
    (s : Inner) (seed : Text) (update : AnnotationUpdate) (k : Key)
    → (((apply s seed update).1 ≡ true)
        × (HashMap.get (apply s seed update).0.entries k ≡ (
            if update_key seed update == k
            then (if is_blank (updated s seed update) then none else some (updated s seed update))
            else HashMap.get s.entries k)))
      ⊎ ((apply s seed update ≡ (s, false))
          × (HashMap.get s.entries (update_key seed update) ≡ none)
          × (s.limit ≤ HashMap.count (λ _. true) s.entries))
apply-get_annotation s seed update k =
    let key = update_key seed update in
    let new = updated s seed update in
    apply_cases s seed update
      (λ r.
        ((r.1 ≡ true)
          × (HashMap.get r.0.entries k ≡ (
              if update_key seed update == k
              then (if is_blank (updated s seed update) then none else some (updated s seed update))
              else HashMap.get s.entries k)))
        ⊎ ((r ≡ (s, false))
            × (HashMap.get s.entries (update_key seed update) ≡ none)
            × (s.limit ≤ HashMap.count (λ _. true) s.entries)))
      (λ b. inl (refl, rw b (get-remove s.entries key k))) (λ b n f. inr (refl, n, f))
      (λ b room. inl (refl, rw b (get-insert s.entries key k new)))

merge_field-create :
    (u : Update) (value : Option Text)
    → IsField u value
    → merge_field (create_operation u) (present_value u value) (Update.reset, none) ≡ (u, value)
unfolding merge_field create_operation present_value
merge_field-create Update.unchanged none i = absurd (ground arith)
merge_field-create Update.unchanged (some x) i = refl
merge_field-create Update.set value i = absurd (ground arith)
merge_field-create Update.reset value i = ap (λ x. (Update.reset, x)) (sym i)

merge_tags-create :
    (u : Update) (tags : List AnnotationTag)
    → IsTags u tags
    → merge_tags (create_operation u) (tags_at_create (create_operation u) tags) (Update.reset, [])
      ≡ (u, tags)
unfolding merge_tags create_operation tags_at_create
merge_tags-create Update.unchanged [] i = absurd (ground arith)
merge_tags-create Update.unchanged (tag ∷ tags) i =
    ap (λ (x : List AnnotationTag). (Update.unchanged, x))
      (retag_again Update.unchanged Update.set (tag ∷ tags) ∙ i)
merge_tags-create Update.set tags i = absurd (ground arith)
merge_tags-create Update.reset tags i = ap (λ x. (Update.reset, x)) (sym i)

-- What is handed to libnvnmos when a resource is made again says the same as what was stored: applied
-- to nothing, it gives the stored annotation back.
pub annotation_at_create-merge :
    (stored : Annotation)
    → IsStored stored
    → merge blank_annotation (annotation_at_create stored) ≡ stored
unfolding merge annotation_at_create
annotation_at_create-merge stored i =
    rw
      (
        merge_field-create stored.label_update stored.label i.label,
        merge_field-create stored.description_update stored.description i.description,
        merge_tags-create stored.tags_update stored.tags i.tags,
      )
      refl
