-- ===== src/FlowDef/Spliced.antt =====
-- The document that properties are spliced into, and its tags.
use nvnmos.Common.{
  ◌==◌, ==_refl, nat_Eq, text_Eq, text_eq, Text, codes, ◌≡◌, refl, sym, ap, ◌∙◌, ◌⊎◌, inl, inr,
  true, false, Option, none, some, arith, Bool-cases, Option-cases,
}
use nvnmos.FlowDef.Json.{JsonLib}
use nvnmos.FlowDef.Types.{flow_format_Eq, ok}
use nvnmos.FlowDef.Read.{and_then, field, tags_of}
use nvnmos.FlowDef.Splice.{
  touches_tags, put, splice_tags, tags_entry, splice_fields, splice_overrides, FlowDefOverrides,
}

module _ (j : JsonLib) where
  open j use {Value, Object, from_str, to_string, object, as_object, get, new}

  -- What becomes of the tags: they stay as they are, or the properties go into those of the document,
  -- or into none.
  pub data TagsSpliced (ov : FlowDefOverrides) (old now : Option Object) : Type 0 where
    untouched : touches_tags ov ≡ false → now ≡ old → TagsSpliced ov old now
    into_tags :
        (t : Object)
        → touches_tags ov ≡ true
        → (old ≡ some t) ⊎ ((old ≡ none) × (t ≡ new))
        → now ≡ some (splice_tags j ov t)
        → TagsSpliced ov old now

  pub record IsSpliced (text : Text) (ov : FlowDefOverrides) (out : Text) : Type 0 where
    pub value : Value
    pub document : Object
    pub read : from_str text ≡ some value
    pub is_object : as_object value ≡ some document
    pub result : Object
    pub printed : from_str out ≡ some (object result)
    pub fields :
        (k : Text) → codes "tags" == k ≡ false → get result k ≡ get (splice_fields j ov document) k
    pub tags : TagsSpliced ov (tags_of j value) (tags_of j (object result))

  pub get-put_other :
      {A : Type 0} (f : A → Value) (key : Text) (a : Option A) (o : Object) (k : Text)
      → key == k ≡ false
      → get (put j f key a o) k ≡ get o k
  unfolding put
  get-put_other f key none o k h = refl
  get-put_other f key (some a) o k h = rw (j.get-insert o key k (f a), h) refl

  pub get-put_self :
      {A : Type 0} (f : A → Value) (key : Text) (a : Option A) (o : Object) (x : Option Value)
      → get o key ≡ x
      → get (put j f key a o) key ≡ (elim a [ none ↦ x | some b ↦ some (f b) ])
  unfolding put
  get-put_self f key none o x h = h
  get-put_self f key (some a) o x h = rw (j.get-insert o key key (f a), ==_refl key) refl

  splice_fields-tags :
      (ov : FlowDefOverrides) (o : Object)
      → get (splice_fields j ov o) (codes "tags") ≡ get o (codes "tags")
  unfolding splice_fields text_eq
  splice_fields-tags ov o =
      get-put_other _ (codes "description") ov.description _ (codes "tags") refl
      ∙ get-put_other _ (codes "label") ov.label _ (codes "tags") refl
      ∙ get-put_other _ (codes "id") ov.flow_id o (codes "tags") refl

  pub tags_of-object :
      (o : Object) → tags_of j (object o) ≡ and_then (get o (codes "tags")) as_object
  unfolding tags_of field
  tags_of-object o = rw (j.as_object-object o) refl

  pub tags_of-value :
      (v : Value) (o : Object)
      → as_object v ≡ some o
      → tags_of j v ≡ and_then (get o (codes "tags")) as_object
  unfolding tags_of field
  tags_of-value v o h = rw h refl

  -- Where the entry of the tags comes from.
  tags_entry-source :
      (ov : FlowDefOverrides) (o t : Object)
      → tags_entry j (splice_fields j ov o) ≡ some t
      → let old = and_then (get o (codes "tags")) as_object in
        (old ≡ some t) ⊎ ((old ≡ none) × (t ≡ new))
  unfolding tags_entry
  tags_entry-source ov o t h = elim (Option-cases (get o (codes "tags"))) [
    | inl n ↦ inr (rw n refl, ground (arith, n, splice_fields-tags ov o))
    | inr (v, k) ↦ inl (rw k (ground (arith, k, splice_fields-tags ov o)))
  ]

  pub splice_overrides-IsSpliced :
      (text out : Text) (ov : FlowDefOverrides)
      → ((v : Value) → to_string v ≡ out → j.is_exact v ≡ true)
      → splice_overrides j text ov ≡ ok out
      → IsSpliced text ov out
  unfolding splice_overrides
  splice_overrides-IsSpliced text out ov exact h = elim (Option-cases (from_str text)) [
    | inl q ↦ absurd (ground (arith, q))
    | inr (v, q) ↦ elim (Option-cases (as_object v)) [
      | inl k ↦ absurd (ground (arith, q, k))
      | inr (o, k) ↦ elim (Bool-cases (touches_tags ov)) [
        | inr n ↦
            let top = splice_fields j ov o in
            let shown : out ≡ to_string (object top) = ground (arith, q, k, n) in
            record {
              value = v;
              document = o;
              read = q;
              is_object = k;
              result = top;
              printed =
                  rw shown (j.from_str-to_string (object top) (exact (object top) (sym shown)));
              fields = λ f e. refl;
              tags = untouched n (
                  tags_of-object top
                  ∙ ap (λ e. and_then e as_object) (splice_fields-tags ov o)
                  ∙ sym (tags_of-value v o k));
            }
        | inl n ↦ elim (Option-cases (tags_entry j (splice_fields j ov o))) [
          | inl m ↦ absurd (ground (arith, q, k, n, m))
          | inr (t, m) ↦
              let top = splice_fields j ov o in
              let tags = object (splice_tags j ov t) in
              let result = j.insert top (codes "tags") tags in
              let shown : out ≡ to_string (object result) = ground (arith, q, k, n, m) in
              record {
                value = v;
                document = o;
                read = q;
                is_object = k;
                result = result;
                printed =
                    rw shown
                      (j.from_str-to_string (object result) (exact (object result) (sym shown)));
                fields = λ f e. rw (j.get-insert top (codes "tags") f tags, e) refl;
                tags = into_tags t n (rw (tags_of-value v o k) (tags_entry-source ov o t m)) (
                    tags_of-object result
                    ∙ rw
                        (
                          j.get-insert top (codes "tags") (codes "tags") tags,
                          ==_refl (codes "tags"),
                        )
                        (j.as_object-object (splice_tags j ov t)));
              }
        ]
      ]
    ]
  ]
