-- ===== src/FlowDef/Roundtrip.antt =====
-- What the readers of flow definitions find in a document that properties were spliced into.
use nvnmos.Common.{nat_Eq, text_Eq, Text, Bool, true, false, Option, none, some, [], ◌∷◌}
use nvnmos.FlowDef.Json.{JsonLib}
use nvnmos.FlowDef.Types.{
  flow_format_Eq, CapsMode, DomainId, Parsed, auto, constrained, unconstrained, concrete,
  application_resolved, ok,
}
use nvnmos.FlowDef.Read.{and_then, head, non_empty, tag_json, mxl_domain_id_from_tag_value}
use nvnmos.FlowDef.Splice.{one}
use nvnmos.FlowDef.Overridden.{Overridden}

-- The readers, as functions of the tags.
module _ (j : JsonLib) where
  open j use {Value, Object, from_str, as_object, as_array, as_str, get, new}

  abbrev name_in : Option Value → Option Text
  name_in o = and_then o (λ v.
      and_then (as_array v)
        (λ entries. and_then (head entries) (λ first. and_then (as_str first) non_empty)))

  abbrev domain_in : Option Value → Parsed DomainId
  domain_in o = elim o [
    | none ↦ ok application_resolved
    | some value ↦ mxl_domain_id_from_tag_value j value
  ]

  abbrev caps_in : Option Value → Bool
  caps_in o = elim (and_then o as_array) [ none ↦ false | some [] ↦ false | some (v ∷ vs) ↦ true ]

  -- The property if it is set, and what the file says otherwise.
  abbrev pub name_after : Option Text → Option Text → Option Text
  name_after none was = was
  name_after (some n) was = non_empty n

  -- An empty id reads as no id at all.
  abbrev pub domain_after : Option DomainId → Parsed DomainId → Parsed DomainId
  domain_after none was = was
  domain_after (some application_resolved) was = ok application_resolved
  domain_after (some (concrete [])) was = ok application_resolved
  domain_after (some (concrete (c ∷ id))) was = ok (concrete (c ∷ id))

  abbrev pub caps_after : CapsMode → Bool → Bool
  caps_after auto was = was
  caps_after constrained was = false
  caps_after unconstrained was = true

  abbrev name_over : Option Text → Option Value → Option Value
  name_over a x = elim a [ none ↦ x | some n ↦ some (one j n) ]

  abbrev domain_over : Option DomainId → Option Value → Option Value
  domain_over a x = elim a [ none ↦ x | some d ↦ some (tag_json j d) ]

  abbrev caps_over : CapsMode → Option Value → Option Value
  caps_over mode x = elim mode [ auto ↦ x | constrained ↦ none | unconstrained ↦ some (one j []) ]
