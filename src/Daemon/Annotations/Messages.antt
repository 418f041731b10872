-- ===== src/Daemon/Annotations/Messages.antt =====
-- Annotations on the wire: `proto_annotation` of rust/nvnmosd/src/state.rs and
-- `decode_annotation_update` of src/main.rs. An `i32` that holds an enum is its bit pattern; the
-- numbers of the enums are those of rust/nvnmos-rpc/proto/nvnmosd.proto.
use nvnmos.Common.{
  ◌==◌, nat_Eq, text_Eq, Text, ℕ, Bool, true, false, Option, none, some, List, [], ◌∷◌, nat_eq,
  if◌then◌else◌, any,
}
use nvnmos.Wrapper.{resource_type_Eq, ResourceType, Update, AnnotationTag, Annotation}
use nvnmos.Daemon.Status.{◌>>=◌, Result, invalid_argument, ok, err}
use nvnmos.Daemon.AnnotationStore.{read_only_tag}

pub record ProtoAnnotationTag : Type 0 where
  pub key : Text
  pub values_update : ℕ
  pub values : List Text

pub record ProtoAnnotation : Type 0 where
  pub label_update : ℕ
  pub label : Text
  pub description_update : ℕ
  pub description : Text
  pub tags_update : ℕ
  pub tags : List ProtoAnnotationTag

pub record AnnotationEvent : Type 0 where
  pub resource_type : ℕ
  pub resource_handle : Text
  pub annotation : Option ProtoAnnotation

unfoldable pub proto_resource_type : ResourceType → ℕ
proto_resource_type ResourceType.node = 1
proto_resource_type ResourceType.device = 2
proto_resource_type ResourceType.source = 3
proto_resource_type ResourceType.flow = 4
proto_resource_type ResourceType.sender = 5
proto_resource_type ResourceType.receiver = 6

unfoldable pub decode_resource_type : ℕ → Result ResourceType
decode_resource_type raw =
    if nat_eq raw 1
    then ok ResourceType.node
    else if nat_eq raw 2
    then ok ResourceType.device
    else if nat_eq raw 3
    then ok ResourceType.source
    else if nat_eq raw 4
    then ok ResourceType.flow
    else if nat_eq raw 5
    then ok ResourceType.sender
    else if nat_eq raw 6
    then ok ResourceType.receiver
    else err invalid_argument

unfoldable pub proto_update : Update → ℕ
proto_update Update.unchanged = 0
proto_update Update.set = 1
proto_update Update.reset = 2

unfoldable pub decode_update : ℕ → Result Update
decode_update raw =
    if nat_eq raw 0
    then ok Update.unchanged
    else if nat_eq raw 1
    then ok Update.set
    else if nat_eq raw 2
    then ok Update.reset
    else err invalid_argument

abbrev pub or_empty : Option Text → Text
or_empty none = []
or_empty (some t) = t

unfoldable pub proto_tags : List AnnotationTag → List ProtoAnnotationTag
unfolding proto_update
proto_tags [] = []
proto_tags (tag ∷ tags) =
    record { key = tag.key; values_update = proto_update tag.values_update; values = tag.values }
    ∷ proto_tags tags

unfoldable pub proto_annotation : Option Annotation → ProtoAnnotation
unfolding proto_tags
proto_annotation none = record {
  label_update = proto_update Update.reset;
  label = [];
  description_update = proto_update Update.reset;
  description = [];
  tags_update = proto_update Update.reset;
  tags = [];
}
proto_annotation (some stored) = record {
  label_update = proto_update stored.label_update;
  label = or_empty stored.label;
  description_update = proto_update stored.description_update;
  description = or_empty stored.description;
  tags_update = proto_update stored.tags_update;
  tags = proto_tags stored.tags;
}

unfoldable pub annotation_event : ResourceType → Text → Option Annotation → AnnotationEvent
unfolding proto_resource_type proto_annotation
annotation_event type handle stored = record {
  resource_type = proto_resource_type type;
  resource_handle = handle;
  annotation = some (proto_annotation stored);
}

abbrev pub is_unchanged : Update → Bool
is_unchanged Update.unchanged = true
is_unchanged _ = false

abbrev pub is_set : Update → Bool
is_set Update.set = true
is_set _ = false

-- The loop over the tags, with the keys that it has seen.
unfoldable pub decode_tags : List Text → List ProtoAnnotationTag → Result (List AnnotationTag)
unfolding decode_update
decode_tags seen [] = ok []
decode_tags seen (tag ∷ tags) =
    let skipped = decode_tags seen tags in
    let rest = decode_tags (tag.key ∷ seen) tags in
    decode_update tag.values_update >>= λ update.
    if is_unchanged update
    then skipped
    else if tag.key == []
    then err invalid_argument
    else if any (λ k. k == tag.key) seen
    then err invalid_argument
    else if read_only_tag tag.key
    then err invalid_argument
    else rest >>= λ decoded.
        ok (record { key = tag.key; values_update = update; values = tag.values } ∷ decoded)

abbrev pub when_set : Update → Text → Option Text
when_set Update.set t = some t
when_set _ t = none

-- `decode_annotation_update`
unfoldable pub decode_annotation_update : Option ProtoAnnotation → Result Annotation
unfolding decode_tags
decode_annotation_update none = ok (record {
  label_update = Update.unchanged;
  label = none;
  description_update = Update.unchanged;
  description = none;
  tags_update = Update.unchanged;
  tags = [];
})
decode_annotation_update (some a) = do
  label_update ← decode_update a.label_update
  description_update ← decode_update a.description_update
  tags_update ← decode_update a.tags_update
  tags ← (if is_set tags_update then decode_tags [] a.tags else ok [])
  ok (record {
    label_update = label_update;
    label = when_set label_update a.label;
    description_update = description_update;
    description = when_set description_update a.description;
    tags_update = tags_update;
    tags = tags;
  })
