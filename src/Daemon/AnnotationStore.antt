-- ===== src/Daemon/AnnotationStore.antt =====
-- The annotations that the daemon remembers: rust/nvnmosd/src/annotation_store.rs, without its
-- checkpoint file and the thread that writes it.
pub mod Stored
pub mod Views
use nvnmos.Common.{
  Eq, ◌==◌, ==_iff, nat_Eq, text_Eq, Text, codes, starts_with, ℕ, ◌≡◌, ◌↔◌, Bool, true, false, ◌&&◌,
  ◌||◌, not, Option, none, some, List, [], ◌∷◌, map, arith, ltb, if◌then◌else◌,
}
use nvnmos.HashMap
use nvnmos.HashMap.{values, HashMap}
use nvnmos.Wrapper.{
  resource_type_Eq, ResourceType, Update, AnnotationTag, Annotation, AnnotationUpdate,
}

pub record Key : Type 0 where
  pub seed : Text
  pub resource_type : ResourceType
  pub name : Text

abbrev pub key_eq : Key → Key → Bool
key_eq a b = a.seed == b.seed && a.resource_type == b.resource_type && a.name == b.name

pub key_eq_iff : (a b : Key) → (key_eq a b ≡ true) ↔ (a ≡ b)
key_eq_iff a b =
    ground
      (arith, ==_iff a.seed b.seed, ==_iff a.resource_type b.resource_type, ==_iff a.name b.name)

instance abbrev pub key_Eq : Eq Key
key_Eq = record { same = key_eq; decides = key_eq_iff }

pub record Inner : Type 0 where
  pub entries : HashMap Key Annotation
  pub limit : ℕ

abbrev pub blank_annotation : Annotation
blank_annotation = record {
  label_update = Update.reset;
  label = none;
  description_update = Update.reset;
  description = none;
  tags_update = Update.reset;
  tags = [];
}

unfoldable pub create_operation : Update → Update
create_operation Update.unchanged = Update.set
create_operation Update.set = Update.set
create_operation Update.reset = Update.unchanged

unfoldable pub present_value : Update → Option Text → Option Text
present_value Update.unchanged value = value
present_value Update.set value = value
present_value Update.reset value = none

abbrev pub retag : Update → List AnnotationTag → List AnnotationTag
retag update = map (λ tag. record { key = tag.key; values_update = update; values = tag.values })

unfoldable pub tags_at_create : Update → List AnnotationTag → List AnnotationTag
tags_at_create Update.unchanged tags = []
tags_at_create Update.set tags = retag Update.set tags
tags_at_create Update.reset tags = retag Update.set tags

-- `annotation_at_create`
unfoldable pub annotation_at_create : Annotation → Annotation
unfolding create_operation present_value tags_at_create
annotation_at_create stored = record {
  label_update = create_operation stored.label_update;
  label = present_value stored.label_update stored.label;
  description_update = create_operation stored.description_update;
  description = present_value stored.description_update stored.description;
  tags_update = create_operation stored.tags_update;
  tags = tags_at_create (create_operation stored.tags_update) stored.tags;
}

-- `AnnotationStore::get`
unfoldable pub get_annotation : Inner → Text → ResourceType → Text → Option Annotation
get_annotation s seed resource_type name =
    HashMap.get s.entries (record { seed = seed; resource_type = resource_type; name = name })

-- The `match` on the update of a label or of a description.
unfoldable pub merge_field : Update → Option Text → Update × Option Text → Update × Option Text
merge_field Update.unchanged value old = old
merge_field Update.set none old = (Update.reset, none)
merge_field Update.set (some value) old = (Update.unchanged, some value)
merge_field Update.reset value old = (Update.reset, none)

unfoldable pub merge_tags :
    Update → List AnnotationTag → Update × List AnnotationTag → Update × List AnnotationTag
merge_tags Update.unchanged tags old = old
merge_tags Update.set [] old = (Update.reset, [])
merge_tags Update.set (tag ∷ tags) old = (Update.unchanged, retag Update.unchanged (tag ∷ tags))
merge_tags Update.reset tags old = (Update.reset, [])

unfoldable pub merge : Annotation → Annotation → Annotation
unfolding merge_field merge_tags
merge entry annotation =
    let label =
      merge_field annotation.label_update annotation.label (entry.label_update, entry.label) in
    let description =
      merge_field annotation.description_update annotation.description
        (entry.description_update, entry.description) in
    let tags = merge_tags annotation.tags_update annotation.tags (entry.tags_update, entry.tags) in
    record {
      label_update = label.0;
      label = label.1;
      description_update = description.0;
      description = description.1;
      tags_update = tags.0;
      tags = tags.1;
    }

abbrev pub is_reset : Update → Bool
is_reset Update.reset = true
is_reset _ = false

-- Nothing is left annotated.
abbrev pub is_blank : Annotation → Bool
is_blank a = is_reset a.label_update && is_reset a.description_update && is_reset a.tags_update

abbrev pub unwrap_or : {A : Type 0} → A → Option A → A
unwrap_or a none = a
unwrap_or a (some b) = b

abbrev pub update_key : Text → AnnotationUpdate → Key
update_key seed update = record {
  seed = seed;
  resource_type = update.resource_type;
  name = unwrap_or [] update.name;
}

-- The entry after the update.
unfoldable pub updated : Inner → Text → AnnotationUpdate → Annotation
unfolding merge
updated s seed update =
    merge (unwrap_or blank_annotation (HashMap.get s.entries (update_key seed update)))
      update.annotation

-- `AnnotationStore::apply`: whether the update was accepted.
unfoldable pub apply : Inner → Text → AnnotationUpdate → Inner × Bool
unfolding updated
apply s seed update =
    let key = update_key seed update in
    if is_blank (updated s seed update)
    then (record s { entries = HashMap.remove s.entries key }, true)
    else if not (HashMap.contains_key s.entries key)
        && not (ltb (HashMap.count (λ _. true) s.entries) s.limit)
    then (s, false)
    else (record s { entries = HashMap.insert s.entries key (updated s seed update) }, true)

-- `read_only_tag`
unfoldable pub read_only_tag : Text → Bool
unfolding starts_with
read_only_tag key =
    starts_with (codes "urn:x-nmos:tag:asset:") key
    || starts_with (codes "urn:x-nmos:tag:grouphint/") key
    || starts_with (codes "urn:x-nvnmos:tag:") key
