-- ===== src/Daemon/AnnotationStore/Views.antt =====
-- The store as what a client sees of it: for each resource a label, a description and tags, and no marks
-- of how they are kept (rust/nvnmosd/src/annotation_store.rs).
use nvnmos.Common.{
  ◌==◌, ==_iff, nat_Eq, text_Eq, Text, ◌≤◌, ◌≡◌, refl, sym, ap, ◌∙◌, subst, ◌⊎◌, inl, inr, true,
  false, Option, none, some, List, [], ◌∷◌, arith, if◌then◌else◌, Bool-cases, Option-cases,
}
use nvnmos.HashMap
use nvnmos.HashMap.{HashMap}
use nvnmos.Wrapper.{resource_type_Eq, Update, AnnotationTag, Annotation, AnnotationUpdate}
use nvnmos.Daemon.AnnotationStore.{
  key_Eq, blank_annotation, retag, merge_field, merge_tags, merge, is_reset, is_blank, update_key,
  updated, apply, Key, Inner,
}
use nvnmos.Daemon.AnnotationStore.Stored.{
  IsField, IsTags, updated-IsStored, apply-get_annotation, IsStored, IsStore,
}

pub record View : Type 0 where
  pub label : Option Text
  pub description : Option Text
  pub tags : List (Text × List Text)

abbrev pub pairs : List AnnotationTag → List (Text × List Text)
pairs [] = []
pairs (tag ∷ tags) = (tag.key, tag.values) ∷ pairs tags

-- A resource that has no entry is annotated with nothing.
abbrev pub view : Option Annotation → View
view none = record { label = none; description = none; tags = [] }
view (some a) = record { label = a.label; description = a.description; tags = pairs a.tags }

-- A field is left, replaced, or cleared.
abbrev pub change : {A : Type 0} → Update → A → A → A → A
change Update.unchanged given cleared old = old
change Update.set given cleared old = given
change Update.reset given cleared old = cleared

abbrev pub changed : Annotation → View → View
changed u v = record {
  label = change u.label_update u.label none v.label;
  description = change u.description_update u.description none v.description;
  tags = change u.tags_update (pairs u.tags) [] v.tags;
}

pairs-retag : (u : Update) (tags : List AnnotationTag) → pairs (retag u tags) ≡ pairs tags
pairs-retag u [] = refl
pairs-retag u (tag ∷ tags) = ap (λ ps. (tag.key, tag.values) ∷ ps) (pairs-retag u tags)

merge_field-change :
    (u : Update) (value : Option Text) (v : Update) (old : Option Text)
    → (merge_field u value (v, old)).1 ≡ change u value none old
unfolding merge_field
merge_field-change Update.unchanged value v old = refl
merge_field-change Update.set none v old = refl
merge_field-change Update.set (some t) v old = refl
merge_field-change Update.reset value v old = refl

merge_tags-change :
    (u : Update) (tags : List AnnotationTag) (v : Update) (old : List AnnotationTag)
    → pairs (merge_tags u tags (v, old)).1 ≡ change u (pairs tags) [] (pairs old)
unfolding merge_tags
merge_tags-change Update.unchanged tags v old = refl
merge_tags-change Update.set [] v old = refl
merge_tags-change Update.set (tag ∷ tags) v old = pairs-retag Update.unchanged (tag ∷ tags)
merge_tags-change Update.reset tags v old = refl

merge-changed : (entry u : Annotation) → view (some (merge entry u)) ≡ changed u (view (some entry))
unfolding merge
merge-changed entry u =
    rw
      (
        merge_field-change u.label_update u.label entry.label_update entry.label,
        merge_field-change u.description_update u.description entry.description_update
            entry.description,
        merge_tags-change u.tags_update u.tags entry.tags_update entry.tags,
      )
      refl

updated-changed :
    (s : Inner) (seed : Text) (update : AnnotationUpdate)
    → view (some (updated s seed update))
      ≡ changed update.annotation (view (HashMap.get s.entries (update_key seed update)))
unfolding updated
updated-changed s seed update =
    elim (Option-cases (HashMap.get s.entries (update_key seed update))) [
      | inl q ↦ rw q (merge-changed blank_annotation update.annotation)
      | inr (a, q) ↦ rw q (merge-changed a update.annotation)
    ]

field-blank :
    (u : Update) (value : Option Text) → IsField u value → is_reset u ≡ true → value ≡ none
field-blank Update.unchanged value i b = absurd (ground arith)
field-blank Update.set value i b = absurd (ground arith)
field-blank Update.reset value i b = i

tags-blank :
    (u : Update) (tags : List AnnotationTag) → IsTags u tags → is_reset u ≡ true → tags ≡ []
tags-blank Update.unchanged tags i b = absurd (ground arith)
tags-blank Update.set tags i b = absurd (ground arith)
tags-blank Update.reset tags i b = i

-- What is kept and blank shows nothing.
blank-view : (a : Annotation) → IsStored a → is_blank a ≡ true → view (some a) ≡ view none
blank-view a i b =
    rw
      (
        field-blank a.label_update a.label i.label (ground (arith, b)),
        field-blank a.description_update a.description i.description (ground (arith, b)),
        tags-blank a.tags_update a.tags i.tags (ground (arith, b)),
      )
      refl

-- On a store in form, an update that is accepted leaves, replaces or clears each field of the resource
-- that it names, as it says, and changes no other resource. One that is refused changes nothing, and is
-- refused because nothing is kept for its resource yet and the store is full.
pub apply-view :
    (s : Inner) (seed : Text) (update : AnnotationUpdate) (k : Key)
    → IsStore s
    → let r = apply s seed update in
      ((r.1 ≡ true)
        × (view (HashMap.get r.0.entries k) ≡ (
            if update_key seed update == k
            then changed update.annotation (view (HashMap.get s.entries k))
            else view (HashMap.get s.entries k))))
      ⊎ ((r ≡ (s, false))
          × (HashMap.get s.entries (update_key seed update) ≡ none)
          × (s.limit ≤ HashMap.count (λ _. true) s.entries))
apply-view s seed update k i = elim (apply-get_annotation s seed update k) [
  | inr r ↦ inr r
  | inl (a, g) ↦ elim (Bool-cases (update_key seed update == k)) [
    | inr other ↦ inl (a, rw other (kept (g ∙ rw other refl)))
    | inl same ↦
        let here : update_key seed update ≡ k = (==_iff (update_key seed update) k).0 same in
        let now =
          subst
            (λ x.
              view (some (updated s seed update))
              ≡ changed update.annotation (view (HashMap.get s.entries x)))
            here (updated-changed s seed update) in
        elim (Bool-cases (is_blank (updated s seed update))) [
          | inr b ↦ inl (a, rw same (stored (g ∙ rw (same, b) refl) ∙ now))
          | inl b ↦ inl (
            a,
            rw same (
                gone (g ∙ rw (same, b) refl)
                ∙ sym (blank-view (updated s seed update) (updated-IsStored s seed update i) b)
                ∙ now),
          )
        ]
  ]
]
  where
    got : Option Annotation
    got = HashMap.get (apply s seed update).0.entries k

    kept : got ≡ HashMap.get s.entries k → view got ≡ view (HashMap.get s.entries k)
    kept e = ap view e

    stored : got ≡ some (updated s seed update) → view got ≡ view (some (updated s seed update))
    stored e = ap view e

    gone : got ≡ none → view got ≡ view none
    gone e = ap view e
