-- ===== src/FlowDef/Splice.antt =====
-- `splice_overrides` of rust/gst-nmos-rs/src/flow_def.rs.
use nvnmos.Common.{
  nat_Eq, text_Eq, Text, codes, Bool, true, false, ◌||◌, not, Option, none, some, [], ◌∷◌,
  if◌then◌else◌, is_some,
}
use nvnmos.FlowDef.Json.{JsonLib}
use nvnmos.FlowDef.Types.{
  flow_format_Eq, ◌>>=◌, ok_or, CapsMode, DomainId, Parsed, auto, constrained, unconstrained, parse,
  not_an_object, tags_not_an_object, ok,
}
use nvnmos.FlowDef.Read.{name_tag, mxl_domain_id_tag, group_hint_tag, caps_tag, tag_json}

pub record FlowDefOverrides : Type 0 where
  pub flow_id : Option Text
  pub name : Option Text
  pub label : Option Text
  pub description : Option Text
  pub group_hint : Option Text
  pub mxl_domain_id : Option DomainId
  pub caps_mode : CapsMode

abbrev pub is_auto : CapsMode → Bool
is_auto auto = true
is_auto _ = false

abbrev pub touches_tags : FlowDefOverrides → Bool
touches_tags ov =
    is_some ov.name
    || is_some ov.group_hint
    || is_some ov.mxl_domain_id
    || not (is_auto ov.caps_mode)

module _ (j : JsonLib) where
  open j use {
    Value, Object, from_str, to_string, object, array, string, as_object, get, insert, remove, new,
  }

  unfoldable pub put : {A : Type 0} → (A → Value) → Text → Option A → Object → Object
  put f key none o = o
  put f key (some a) o = insert o key (f a)

  abbrev pub one : Text → Value
  one t = array (string t ∷ [])

  unfoldable pub set_caps : CapsMode → Object → Object
  set_caps auto tags = tags
  set_caps constrained tags = remove tags caps_tag
  set_caps unconstrained tags = insert tags caps_tag (one [])

  unfoldable pub splice_tags : FlowDefOverrides → Object → Object
  unfolding put set_caps
  splice_tags ov tags = set_caps ov.caps_mode (
      put (tag_json j) mxl_domain_id_tag ov.mxl_domain_id
        (put one group_hint_tag ov.group_hint (put one name_tag ov.name tags)))

  -- `entry("tags").or_insert_with(…)`, then `as_object_mut`
  unfoldable pub tags_entry : Object → Option Object
  tags_entry o = elim (get o (codes "tags")) [ none ↦ some new | some v ↦ as_object v ]

  unfoldable pub splice_fields : FlowDefOverrides → Object → Object
  unfolding put
  splice_fields ov o =
      put string (codes "description") ov.description
        (put string (codes "label") ov.label (put string (codes "id") ov.flow_id o))

  -- `splice_overrides`
  unfoldable pub splice_overrides : Text → FlowDefOverrides → Parsed Text
  unfolding splice_fields splice_tags tags_entry
  splice_overrides text ov = do
    value ← ok_or (from_str text) parse
    document ← ok_or (as_object value) not_an_object
    let top = splice_fields ov document
    if touches_tags ov
        then (ok_or (tags_entry top) tags_not_an_object >>= λ tags.
            ok (to_string (object (insert top (codes "tags") (object (splice_tags ov tags))))))
        else ok (to_string (object top))
