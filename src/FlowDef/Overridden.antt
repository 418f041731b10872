-- ===== src/FlowDef/Overridden.antt =====
-- What a document has once properties were spliced into it by `splice_overrides` of
-- rust/gst-nmos-rs/src/flow_def.rs, field by field and tag by tag.
use nvnmos.Common.{
  ◌==◌, nat_Eq, text_Eq, text_eq, Text, codes, ◌≡◌, refl, sym, ap, ◌∙◌, ◌⊎◌, inl, inr, Bool, true,
  false, Option, none, some, List, [], ◌∷◌, arith, Bool-cases, any,
}
use nvnmos.FlowDef.Json.{JsonLib}
use nvnmos.FlowDef.Types.{flow_format_Eq, CapsMode, auto, constrained, unconstrained}
use nvnmos.FlowDef.Read.{name_tag, mxl_domain_id_tag, group_hint_tag, caps_tag, and_then, tag_json}
use nvnmos.FlowDef.Splice.{
  touches_tags, put, one, set_caps, splice_tags, splice_fields, FlowDefOverrides,
}
use nvnmos.FlowDef.Spliced.{
  get-put_other, get-put_self, tags_of-object, tags_of-value, TagsSpliced, IsSpliced, untouched,
  into_tags,
}

abbrev pub is_one_of : List Text → Text → Bool
is_one_of keys k = any (λ (key : Text). key == k) keys

-- The keys that properties are written to, at the top of a document and in its tags.
abbrev pub field_keys : List Text
field_keys = codes "id" ∷ codes "label" ∷ codes "description" ∷ codes "tags" ∷ []

abbrev pub tag_keys : List Text
tag_keys = name_tag ∷ group_hint_tag ∷ mxl_domain_id_tag ∷ caps_tag ∷ []

module _ (j : JsonLib) where
  open j use {Value, Object, object, string, as_object, get, new}

  abbrev pub tagged : Text → Option Object → Option Value
  tagged key tags = and_then tags (λ o. get o key)

  -- What is set, or else what there was.
  abbrev pub over : (Text → Value) → Option Text → Option Value → Option Value
  over f none was = was
  over f (some t) was = some (f t)

  abbrev pub tag_in : Object → Text → Option Value
  tag_in o key = tagged key (and_then (get o (codes "tags")) as_object)

  pub record Overridden (ov : FlowDefOverrides) (old now : Object) : Type 0 where
    pub id : get now (codes "id") ≡ over string ov.flow_id (get old (codes "id"))
    pub label : get now (codes "label") ≡ over string ov.label (get old (codes "label"))
    pub description :
        get now (codes "description") ≡ over string ov.description (get old (codes "description"))
    pub group_hint :
        tag_in now group_hint_tag ≡ over (one j) ov.group_hint (tag_in old group_hint_tag)
    pub other_fields : (k : Text) → (is_one_of field_keys k ≡ true) ⊎ (get now k ≡ get old k)
    pub other_tags : (k : Text) → (is_one_of tag_keys k ≡ true) ⊎ (tag_in now k ≡ tag_in old k)

  pub set_caps-get :
      (mode : CapsMode) (t : Object) (k : Text)
      → caps_tag == k ≡ false
      → get (set_caps j mode t) k ≡ get t k
  unfolding set_caps
  set_caps-get auto t k h = refl
  set_caps-get constrained t k h = rw (j.get-remove t caps_tag k, h) refl
  set_caps-get unconstrained t k h = rw (j.get-insert t caps_tag k (one j []), h) refl

  -- A tag of the document that is printed, from that of the document that was read.
  pub tagged-TagsSpliced :
      (ov : FlowDefOverrides) (old now : Option Object) (key : Text)
      (over : Option Value → Option Value)
      → ((t : Object) → get (splice_tags j ov t) key ≡ over (get t key))
      → (touches_tags ov ≡ false → (x : Option Value) → over x ≡ x)
      → TagsSpliced j ov old now
      → tagged key now ≡ over (tagged key old)
  tagged-TagsSpliced ov old now key over g h (untouched n q) = rw q (sym (h n (tagged key old)))
  tagged-TagsSpliced ov old now key over g h (into_tags t n (inl o) q) = rw (q, o) (g t)
  tagged-TagsSpliced ov old now key over g h (into_tags t n (inr (o, e)) q) =
      rw (q, o) (g t ∙ ap over (rw e (j.get-new key)))

  over_text :
      (f : Text → Value) (key : Text) (a : Option Text) (o : Object) (x : Option Value)
      → get o key ≡ x
      → get (put j f key a o) key ≡ over f a x
  over_text f key none o x h = get-put_self j f key none o x h
  over_text f key (some a) o x h = get-put_self j f key (some a) o x h

  module _ (ov : FlowDefOverrides) (o : Object) where
    splice_fields_id :
        get (splice_fields j ov o) (codes "id") ≡ over string ov.flow_id (get o (codes "id"))
    unfolding splice_fields text_eq
    splice_fields_id =
        get-put_other j string (codes "description") ov.description _ (codes "id") refl
        ∙ get-put_other j string (codes "label") ov.label _ (codes "id") refl
        ∙ over_text string (codes "id") ov.flow_id o (get o (codes "id")) refl

    splice_fields_label :
        get (splice_fields j ov o) (codes "label") ≡ over string ov.label (get o (codes "label"))
    unfolding splice_fields text_eq
    splice_fields_label =
        get-put_other j string (codes "description") ov.description _ (codes "label") refl
        ∙ over_text string (codes "label") ov.label _ (get o (codes "label"))
            (get-put_other j string (codes "id") ov.flow_id o (codes "label") refl)

    splice_fields_description :
        get (splice_fields j ov o) (codes "description")
        ≡ over string ov.description (get o (codes "description"))
    unfolding splice_fields text_eq
    splice_fields_description =
        over_text string (codes "description") ov.description _ (get o (codes "description")) (
          get-put_other j string (codes "label") ov.label _ (codes "description") refl
          ∙ get-put_other j string (codes "id") ov.flow_id o (codes "description") refl)

    splice_fields_others :
        (k : Text) → is_one_of field_keys k ≡ false → get (splice_fields j ov o) k ≡ get o k
    unfolding splice_fields
    splice_fields_others k h =
        get-put_other j string (codes "description") ov.description _ k (ground (arith, h))
        ∙ get-put_other j string (codes "label") ov.label _ k (ground (arith, h))
        ∙ get-put_other j string (codes "id") ov.flow_id o k (ground (arith, h))

    splice_tags_group_hint :
        get (splice_tags j ov o) group_hint_tag ≡ over (one j) ov.group_hint (get o group_hint_tag)
    unfolding splice_tags text_eq
    splice_tags_group_hint =
        set_caps-get ov.caps_mode _ group_hint_tag refl
        ∙ get-put_other j (tag_json j) mxl_domain_id_tag ov.mxl_domain_id _ group_hint_tag refl
        ∙ over_text (one j) group_hint_tag ov.group_hint _ (get o group_hint_tag)
            (get-put_other j (one j) name_tag ov.name o group_hint_tag refl)

    splice_tags_others :
        (k : Text) → is_one_of tag_keys k ≡ false → get (splice_tags j ov o) k ≡ get o k
    unfolding splice_tags
    splice_tags_others k h =
        set_caps-get ov.caps_mode _ k (ground (arith, h))
        ∙ get-put_other j (tag_json j) mxl_domain_id_tag ov.mxl_domain_id _ k (ground (arith, h))
        ∙ get-put_other j (one j) group_hint_tag ov.group_hint _ k (ground (arith, h))
        ∙ get-put_other j (one j) name_tag ov.name o k (ground (arith, h))

  not_hinted : (ov : FlowDefOverrides) → touches_tags ov ≡ false → ov.group_hint ≡ none
  not_hinted ov h = ground arith

  module _ (text out : Text) (ov : FlowDefOverrides) (s : IsSpliced j text ov out) where
    -- The tag, in the document and in the result, of which the splicing makes `f`.
    spliced_tag :
        (key : Text) (f : Option Value → Option Value)
        → ((t : Object) → get (splice_tags j ov t) key ≡ f (get t key))
        → (touches_tags ov ≡ false → (x : Option Value) → f x ≡ x)
        → tag_in s.result key ≡ f (tag_in s.document key)
    spliced_tag key f g u =
        ap (tagged key) (sym (tags_of-object j s.result))
        ∙ tagged-TagsSpliced ov _ _ key f g u s.tags
        ∙ ap (λ x. f (tagged key x)) (tags_of-value j s.value s.document s.is_object)

    pub IsSpliced-Overridden : Overridden ov s.document s.result
    unfolding text_eq
    IsSpliced-Overridden = record {
      id = s.fields (codes "id") refl ∙ splice_fields_id ov s.document;
      label = s.fields (codes "label") refl ∙ splice_fields_label ov s.document;
      description = s.fields (codes "description") refl ∙ splice_fields_description ov s.document;
      group_hint =
          spliced_tag group_hint_tag (over (one j) ov.group_hint) (splice_tags_group_hint ov)
            (λ n x. rw (not_hinted ov n) refl);
      other_fields = λ k. elim (Bool-cases (is_one_of field_keys k)) [
        | inl h ↦ inl h
        | inr h ↦ inr (s.fields k (not_tags k h) ∙ splice_fields_others ov s.document k h)
      ];
      other_tags = λ k. elim (Bool-cases (is_one_of tag_keys k)) [
        | inl h ↦ inl h
        | inr h ↦ inr (spliced_tag k (λ x. x) (λ t. splice_tags_others ov t k h) (λ n x. refl))
      ];
    }
      where
        not_tags : (k : Text) → is_one_of field_keys k ≡ false → codes "tags" == k ≡ false
        not_tags k h = ground (arith, h)
