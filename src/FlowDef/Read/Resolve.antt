-- ===== src/FlowDef/Read/Resolve.antt =====
-- Ids and formats that come from a property, a file, or both: `read_flow_def_meta`,
-- `metadata_from_transport` and `resolve_mxl_flow_meta` of rust/gst-nmos-rs/src/flow_def.rs, and
-- `resolve_mxl_domain_id` of src/domain.rs.
pub mod Agreement
use nvnmos.Common.{
  ◌==◌, nat_Eq, text_Eq, Text, ◌⊎◌, inl, inr, Bool, true, false, ◌&&◌, Option, none, some, List, [],
  ◌∷◌, if◌then◌else◌,
}
use nvnmos.FlowDef.Types.{
  flow_format_Eq, from_format_urn, ◌>>=◌, ◌>>◌, ok_or, FlowFormat, DomainId, Parsed, ValueOrigin,
  unspecified, video, audio, data_format, concrete, application_resolved, parse, unknown_format,
  id_mismatch, format_mismatch, ok, err, property, file, both, none_given,
}
use nvnmos.FlowDef.Read.{group_hint_tag}

-- `RawFlowDef` and `RawFlowMetadata`, which serde reads; the tags are a map from keys to texts.
pub record RawFlowDef : Type 0 where
  pub id : Option Text
  pub format : Option Text

pub record RawFlowMetadata : Type 0 where
  pub label : Text
  pub description : Text
  pub tags : Text → Option (List Text)

pub record FlowDefMeta : Type 0 where
  pub id : Text
  pub format : FlowFormat

pub record FlowMetadata : Type 0 where
  pub label : Text
  pub description : Text
  pub group_hint : Text

pub record FlowResolution : Type 0 where
  pub id : Text
  pub id_origin : ValueOrigin
  pub format : FlowFormat
  pub format_origin : ValueOrigin

abbrev pub or_empty : Option Text → Text
or_empty none = []
or_empty (some t) = t

-- The `match` on the format of `read_flow_def_meta`.
unfoldable pub format_of : Option Text → Parsed FlowFormat
unfolding from_format_urn
format_of none = ok unspecified
format_of (some urn) = elim (from_format_urn urn) [
  | unspecified ↦ err (unknown_format urn)
  | video ↦ ok video
  | audio ↦ ok audio
  | data_format ↦ ok data_format
]

-- `read_flow_def_meta`; `deserialise` is serde's
unfoldable pub read_flow_def_meta : (Text → Option RawFlowDef) → Text → Parsed FlowDefMeta
unfolding format_of
read_flow_def_meta deserialise text = do
  raw ← ok_or (deserialise text) parse
  format ← format_of raw.format
  ok (record { id = or_empty raw.id; format = format })

abbrev pub first_of : Option (List Text) → Text
first_of none = []
first_of (some []) = []
first_of (some (t ∷ ts)) = t

-- `metadata_from_transport`
unfoldable pub metadata_from_transport :
    (Text → Option RawFlowMetadata) → Text → Parsed FlowMetadata
metadata_from_transport deserialise text = do
  raw ← ok_or (deserialise text) parse
  ok (record {
    label = raw.label;
    description = raw.description;
    group_hint = first_of (raw.tags group_hint_tag);
  })

-- `resolve_id`
unfoldable pub resolve_id : Text → Option Text → Parsed (Text × ValueOrigin)
resolve_id [] none = ok ([], none_given)
resolve_id [] (some []) = ok ([], none_given)
resolve_id [] (some (c ∷ f)) = ok (c ∷ f, file)
resolve_id (c ∷ p) none = ok (c ∷ p, property)
resolve_id (c ∷ p) (some []) = ok (c ∷ p, property)
resolve_id (c ∷ p) (some (d ∷ f)) =
    if d ∷ f == c ∷ p then ok (d ∷ f, both) else err (id_mismatch (c ∷ p) (d ∷ f))

-- `resolve_format`
unfoldable pub resolve_format : FlowFormat → FlowFormat → Parsed (FlowFormat × ValueOrigin)
resolve_format p f =
    if p == unspecified && f == unspecified
    then ok (unspecified, none_given)
    else if f == unspecified
    then ok (p, property)
    else if p == unspecified
    then ok (f, file)
    else if p == f
    then ok (p, both)
    else err (format_mismatch p f)

-- What is read of the file, which counts as missing if it is empty.
unfoldable pub file_meta : (Text → Option RawFlowDef) → Option Text → Parsed (Option FlowDefMeta)
unfolding read_flow_def_meta
file_meta deserialise none = ok none
file_meta deserialise (some []) = ok none
file_meta deserialise (some (c ∷ text)) = do
  meta ← read_flow_def_meta deserialise (c ∷ text)
  ok (some meta)

abbrev pub id_in : Option FlowDefMeta → Option Text
id_in none = none
id_in (some m) = some m.id

abbrev pub format_in : Option FlowDefMeta → FlowFormat
format_in none = unspecified
format_in (some m) = m.format

-- `resolve_mxl_flow_meta`
unfoldable pub resolve_mxl_flow_meta :
    (Text → Option RawFlowDef) → Text → FlowFormat → Option Text → Parsed FlowResolution
unfolding file_meta resolve_id resolve_format
resolve_mxl_flow_meta deserialise property_id property_format text = do
  meta ← file_meta deserialise text
  (id, id_origin) ← resolve_id property_id (id_in meta)
  (format, format_origin) ← resolve_format property_format (format_in meta)
  ok (record { id = id; id_origin = id_origin; format = format; format_origin = format_origin })

-- `DomainError`, without the paths that it names
pub data DomainError : Type 0 where
  mismatch : Text → Text → DomainError
  unreadable malformed missing_id unconfigured : DomainError

-- What comes of reading `domain_def.json` in a directory, and of its `id` field.
pub data DomainFile : Type 0 where
  not_found unreadable_file malformed_file : DomainFile
  defines : Option Text → DomainFile

-- `read_domain_def_id`
unfoldable pub read_domain_def_id : DomainFile → DomainError ⊎ Option Text
read_domain_def_id not_found = inr none
read_domain_def_id unreadable_file = inl unreadable
read_domain_def_id malformed_file = inl malformed
read_domain_def_id (defines none) = inl missing_id
read_domain_def_id (defines (some [])) = inl missing_id
read_domain_def_id (defines (some (c ∷ id))) = inr (some (c ∷ id))

-- The last `match` of `resolve_mxl_domain_id`; the flag tells that there is a path.
unfoldable pub combine_domain : Text → Bool → Option Text → DomainError ⊎ DomainId
combine_domain [] has_path (some id) = inr (concrete id)
combine_domain (c ∷ p) has_path (some id) =
    if id == c ∷ p then inr (concrete id) else inl (mismatch (c ∷ p) id)
combine_domain (c ∷ p) has_path none = inr (concrete (c ∷ p))
combine_domain [] true none = inr application_resolved
combine_domain [] false none = inl unconfigured

-- `resolve_mxl_domain_id`
unfoldable pub resolve_mxl_domain_id : (Text → DomainFile) → Text → Text → DomainError ⊎ DomainId
unfolding read_domain_def_id combine_domain
resolve_mxl_domain_id files property_id [] = combine_domain property_id false none
resolve_mxl_domain_id files property_id (c ∷ path) = elim (read_domain_def_id (files (c ∷ path))) [
  | inl e ↦ inl e
  | inr id ↦ combine_domain property_id true id
]
