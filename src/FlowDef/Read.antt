-- ===== src/FlowDef/Read.antt =====
-- The readers of flow definitions: `mxl_domain_id_from_transport`, `resource_name_from_transport` and
-- `indicates_unconstrained_receiver_caps` of rust/gst-nmos-rs/src/flow_def.rs, and the resolution of
-- an id and a format from a property and a file.
pub mod Resolve
use nvnmos.Common.{
  nat_Eq, text_Eq, Text, codes, Bool, true, false, Option, none, some, List, [], ◌∷◌, ◌++◌,
}
use nvnmos.FlowDef.Json.{JsonLib}
use nvnmos.FlowDef.Types.{
  flow_format_Eq, ◌>>=◌, ◌>>◌, ok_or, DomainId, Parsed, concrete, application_resolved, parse,
  invalid_domain_id_tag, ok, err,
}

abbrev pub name_tag : Text
name_tag = codes "urn:x-nvnmos:tag:name"

abbrev pub mxl_domain_id_tag : Text
mxl_domain_id_tag = codes "urn:x-nvnmos:tag:mxl-domain-id"

abbrev pub group_hint_tag : Text
group_hint_tag = codes "urn:x-nmos:tag:grouphint/v1.0"

abbrev pub caps_tag : Text
caps_tag = codes "urn:x-nvnmos:tag:caps"

abbrev pub and_then {ℓ κ} : {A : Type ℓ} {B : Type κ} → Option A → (A → Option B) → Option B
and_then none f = none
and_then (some a) f = f a

abbrev pub head : {A : Type 0} → List A → Option A
head [] = none
head (x ∷ xs) = some x

abbrev pub non_empty : Text → Option Text
non_empty [] = none
non_empty (c ∷ t) = some (c ∷ t)

module _ (j : JsonLib) where
  open j use {Value, Object, from_str, as_object, as_array, as_str, get}

  -- `DomainId::tag_json`
  unfoldable pub tag_json : DomainId → Value
  tag_json (concrete id) = j.array (j.string id ∷ [])
  tag_json application_resolved = j.array (j.string [] ∷ [])

  -- The loop of `mxl_domain_id_from_tag_value`, with the entries that are not empty so far, and what
  -- comes after it.
  unfoldable pub domain_from_entries : List Text → List Value → Parsed DomainId
  domain_from_entries [] [] = err invalid_domain_id_tag
  domain_from_entries (id ∷ []) [] = ok (concrete id)
  domain_from_entries (id ∷ id' ∷ ids) [] = err invalid_domain_id_tag
  domain_from_entries concrete_ids (v ∷ vs) = elim (as_str v) [
    | none ↦ err invalid_domain_id_tag
    | some [] ↦ elim concrete_ids [
      | [] ↦ ok application_resolved
      | id ∷ ids ↦ err invalid_domain_id_tag
    ]
    | some (c ∷ t) ↦ domain_from_entries (concrete_ids ++ (c ∷ t) ∷ []) vs
  ]

  -- `mxl_domain_id_from_tag_value`
  unfoldable pub mxl_domain_id_from_tag_value : Value → Parsed DomainId
  unfolding domain_from_entries
  mxl_domain_id_from_tag_value v = elim (as_array v) [
    | none ↦ err invalid_domain_id_tag
    | some [] ↦ ok application_resolved
    | some (v ∷ vs) ↦ domain_from_entries [] (v ∷ vs)
  ]

  -- `value.get(key)` on a value that may not be an object
  unfoldable pub field : Value → Text → Option Value
  field v key = and_then (as_object v) (λ o. get o key)

  -- The tags, if they are an object.
  unfoldable pub tags_of : Value → Option Object
  unfolding field
  tags_of v = and_then (field v (codes "tags")) as_object

  -- `mxl_domain_id_from_transport`
  unfoldable pub mxl_domain_id_from_transport : Text → Parsed DomainId
  unfolding tags_of mxl_domain_id_from_tag_value
  mxl_domain_id_from_transport text = do
    raw ← ok_or (from_str text) parse
    elim (and_then (tags_of raw) (λ tags. get tags mxl_domain_id_tag)) as (λ _. Parsed DomainId) [
      | none ↦ ok application_resolved
      | some value ↦ mxl_domain_id_from_tag_value value
    ]

  -- `resource_name_from_transport`
  unfoldable pub resource_name_from_transport : Text → Parsed (Option Text)
  unfolding field
  resource_name_from_transport text = do
    raw ← ok_or (from_str text) parse
    ok (
        and_then (field raw (codes "tags")) (λ tags. and_then (field tags name_tag) (λ v.
          and_then (as_array v)
            (λ entries. and_then (head entries) (λ first. and_then (as_str first) non_empty)))))

  -- `indicates_unconstrained_receiver_caps`
  unfoldable pub indicates_unconstrained_receiver_caps : Text → Parsed Bool
  unfolding tags_of
  indicates_unconstrained_receiver_caps text = do
    raw ← ok_or (from_str text) parse
    ok
        (elim (and_then (and_then (tags_of raw) (λ tags. get tags caps_tag)) as_array)
          as (λ _. Bool) [ none ↦ false | some [] ↦ false | some (v ∷ vs) ↦ true ])
