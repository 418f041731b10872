-- ===== src/FlowDef/Caps/Document.antt =====
-- What the caps leave in a flow definition, field by field.
use nvnmos.Common.{
  ◌==◌, nat_Eq, text_Eq, text_eq, Text, codes, ◌≡◌, refl, ap, ◌∙◌, Bool, true, false, ◌&&◌, ◌||◌,
  not, Option, none, some, List, [], ◌∷◌, arith, if◌then◌else◌,
}
use nvnmos.FlowDef.Json.{is_i32, ℤ, JsonLib}
use nvnmos.FlowDef.Types.{FlowFormat}
use nvnmos.FlowDef.Caps.{GstLib}
use nvnmos.FlowDef.Caps.Build.{
  insert_all, object_of, rate_value, optional, common_fields, FlowDefBuildInput,
}
use nvnmos.FlowDef.Caps.Parse.{RawRational, RawFlowDefForCaps}

module _ (j : JsonLib) where
  open j use {Value, Object, get, as_str, as_i64, as_object, object, to_string}

  -- A document carries a value of the type of the field, or nothing.
  abbrev pub CarriesText : Object → Text → Option Text → Type 0
  CarriesText o k none = get o k ≡ none
  CarriesText o k (some t) = (v : Value) × (get o k ≡ some v) × (as_str v ≡ some t)

  abbrev pub CarriesInt : Object → Text → Option ℤ → Type 0
  CarriesInt o k none = get o k ≡ none
  CarriesInt o k (some n) = (v : Value) × (get o k ≡ some v) × (as_i64 v ≡ some n)

  abbrev pub CarriesRate : Object → Text → Option RawRational → Type 0
  CarriesRate o k none = get o k ≡ none
  CarriesRate o k (some r) =
      (v : Value) × (d : Object) × (get o k ≡ some v)
      × (as_object v ≡ some d)
      × CarriesInt d (codes "numerator") (some r.numerator)
      × CarriesInt d (codes "denominator") (some r.denominator)

  abbrev pub fits : Option ℤ → Bool
  fits none = true
  fits (some n) = is_i32 n

  pub record Carries (o : Object) (r : RawFlowDefForCaps) : Type 0 where
    pub media_type : CarriesText o (codes "media_type") r.media_type
    pub grain_rate : CarriesRate o (codes "grain_rate") r.grain_rate
    pub sample_rate : CarriesRate o (codes "sample_rate") r.sample_rate
    pub frame_width : CarriesInt o (codes "frame_width") r.frame_width
    pub frame_height : CarriesInt o (codes "frame_height") r.frame_height
    pub channel_count : CarriesInt o (codes "channel_count") r.channel_count
    pub interlace_mode : CarriesText o (codes "interlace_mode") r.interlace_mode
    pub width_fits : fits r.frame_width ≡ true
    pub height_fits : fits r.frame_height ≡ true
    pub count_fits : fits r.channel_count ≡ true

  -- What serde's derived reader does with a document that carries every field in its type.
  abbrev pub Deserialises : (Text → Option RawFlowDefForCaps) → Type 0
  Deserialises deserialise =
      (o : Object) (r : RawFlowDefForCaps)
      → Carries o r
      → deserialise (to_string (object o)) ≡ some r

module _ (j : JsonLib) (g : GstLib) where
  open j use {Value, Object, get, insert, new, as_object, object}
  open g use {Structure}

  -- The value that the last insertion under a key leaves there.
  abbrev pub last_field : Text → List (Text × Value) → Option Value → Option Value
  last_field k [] old = old
  last_field k ((key, v) ∷ fields) old = last_field k fields (if key == k then some v else old)

  pub get-insert_all :
      (o : Object) (fields : List (Text × Value)) (k : Text)
      → get (insert_all j g o fields) k ≡ last_field k fields (get o k)
  unfolding insert_all
  get-insert_all o [] k = refl
  get-insert_all o ((key, v) ∷ fields) k =
      get-insert_all (insert o key v) fields k ∙ ap (last_field k fields) (j.get-insert o key k v)

  -- A field of the document, from its body.
  abbrev pub document : FlowDefBuildInput Structure → FlowFormat → List (Text × Value) → Object
  document i format body = insert_all j g (insert_all j g new (common_fields j g i format)) body

  abbrev absent : Text → List (Text × Value) → Bool
  absent k [] = true
  absent k ((key, v) ∷ fields) = not (key == k) && absent k fields

  last_field-absent :
      (k : Text) (fields : List (Text × Value)) (old : Option Value)
      → absent k fields ≡ true
      → last_field k fields old ≡ old
  last_field-absent k [] old h = refl
  last_field-absent k ((key, v) ∷ fields) old h =
      ap (last_field k fields) (ground arith) ∙ last_field-absent k fields old (ground arith)

  absent-optional : (k key t : Text) → key == k ≡ false → absent k (optional j g key t) ≡ true
  absent-optional k key [] h = refl
  absent-optional k key (c ∷ t) h = rw h refl

  -- The keys that stand outside the body.
  abbrev pub is_common : Text → Bool
  is_common k =
      codes "format" == k
      || codes "label" == k
      || codes "description" == k
      || codes "tags" == k
      || codes "parents" == k
      || codes "id" == k

  none_of :
      (a b c d e f : Bool)
      → (a || b || c || d || e || f) ≡ false
      → (a ≡ false) × (b ≡ false) × (c ≡ false) × (d ≡ false) × (e ≡ false) × (f ≡ false)
  none_of false false false false false false h = (refl, refl, refl, refl, refl, refl)
  none_of true b c d e f h = absurd (ground arith)
  none_of false true c d e f h = absurd (ground arith)
  none_of false false true d e f h = absurd (ground arith)
  none_of false false false true e f h = absurd (ground arith)
  none_of false false false false true f h = absurd (ground arith)
  none_of false false false false false true h = absurd (ground arith)

  last_field-common :
      (i : FlowDefBuildInput Structure) (format : FlowFormat) (k : Text) (old : Option Value)
      → is_common k ≡ false
      → last_field k (common_fields j g i format) old ≡ old
  unfolding common_fields
  last_field-common i format k old h =
      let n =
        none_of (codes "format" == k) (codes "label" == k) (codes "description" == k)
          (codes "tags" == k) (codes "parents" == k) (codes "id" == k) h in
      let last = absent-optional k (codes "id") i.flow_id n.5 in
      last_field-absent k (common_fields j g i format) old (ground arith)

  pub get-document :
      (i : FlowDefBuildInput Structure) (format : FlowFormat) (body : List (Text × Value))
      (k : Text)
      → is_common k ≡ false
      → get (document i format body) k ≡ last_field k body none
  get-document i format body k h =
      get-insert_all (insert_all j g new (common_fields j g i format)) body k
      ∙ ap (last_field k body) (
          get-insert_all new (common_fields j g i format) k
          ∙ last_field-common i format k (get new k) h
          ∙ j.get-new k)

  -- A rate, as it is written and as it is read.
  pub carries_rate :
      (o : Object) (k : Text) (n d : ℤ)
      → is_i32 n ≡ true
      → is_i32 d ≡ true
      → get o k ≡ some (rate_value j g n d)
      → CarriesRate j o k (some (record { numerator = n; denominator = d }))
  unfolding rate_value object_of text_eq
  carries_rate o k n d p q h =
      let fields = (codes "numerator", j.number n) ∷ (codes "denominator", j.number d) ∷ [] in
      (
        _,
        insert_all j g new fields,
        h,
        j.as_object-object _,
        (_, get-insert_all new fields (codes "numerator"), j.as_i64-number n p),
        (_, get-insert_all new fields (codes "denominator"), j.as_i64-number d q),
      )
