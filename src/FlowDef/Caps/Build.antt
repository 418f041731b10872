-- ===== src/FlowDef/Caps/Build.antt =====
-- `from_caps` of rust/gst-nmos-rs/src/flow_def.rs: a configuring flow definition from caps.
use nvnmos.Common.{
  ◌==◌, nat_Eq, text_Eq, Text, codes, zero, suc, ◌/◌, Option, none, some, List, [], ◌∷◌,
  if◌then◌else◌,
}
use nvnmos.FlowDef.Json.{ℤ, JsonLib, pos, negsuc}
use nvnmos.FlowDef.Types.{
  flow_format_Eq, as_format_urn, ◌>>=◌, ok_or, FlowFormat, DomainId, Parsed, video, audio,
  data_format, missing_name, empty_caps, unsupported_caps, missing_caps_field,
  unsupported_caps_value, ok, err,
}
use nvnmos.FlowDef.Read.{name_tag, mxl_domain_id_tag, group_hint_tag, tag_json, field}
use nvnmos.FlowDef.Caps.{GstLib}

pub record FlowDefBuildInput (Structure : Type 0) : Type 0 where
  pub flow_id : Text
  pub name : Text
  pub mxl_domain_id : DomainId
  pub label : Text
  pub description : Text
  pub group_hint : Text
  -- `caps.structure(0)`
  pub caps : Option Structure

-- `width / 2` on an `i32`, towards zero
unfoldable pub half : ℤ → ℤ
half (pos n) = pos (n / 2)
half (negsuc zero) = pos 0
half (negsuc (suc n)) = negsuc (n / 2)

module _ (j : JsonLib) (g : GstLib) where
  open j use {Value, Object, object, array, insert, new, number}
  open g use {Structure, Fraction, structure_name, get_string, get_i32, get_fraction, numer, denom}

  abbrev pub text : Text → Value
  text = j.string

  abbrev pub Body : Type 0
  Body = FlowFormat × List (Text × Value)

  unfoldable pub insert_all : Object → List (Text × Value) → Object
  insert_all o [] = o
  insert_all o ((k, v) ∷ fields) = insert_all (insert o k v) fields

  unfoldable pub object_of : List (Text × Value) → Value
  unfolding insert_all
  object_of fields = object (insert_all new fields)

  unfoldable pub rate_value : ℤ → ℤ → Value
  unfolding object_of
  rate_value n d = object_of ((codes "numerator", number n) ∷ (codes "denominator", number d) ∷ [])

  unfoldable pub component : Text → ℤ → ℤ → Value
  unfolding object_of
  component name width height = object_of (
      (codes "name", text name)
      ∷ (codes "width", number width)
      ∷ (codes "height", number height)
      ∷ (codes "bit_depth", number (pos 10))
      ∷ [])

  -- `caps_field_string`, `caps_field_i32` and `caps_field_fraction`
  abbrev pub required : {A : Type 0} → Structure → Text → Option A → Parsed A
  required s field value = ok_or value (missing_caps_field (structure_name s) field)

  abbrev pub interlace_field : Option Text → List (Text × Value)
  interlace_field none = []
  interlace_field (some mode) = (codes "interlace_mode", text mode) ∷ []

  unfoldable pub video_fields : ℤ → ℤ → Fraction → Option Text → List (Text × Value)
  unfolding rate_value component half
  video_fields width height rate mode =
      (codes "media_type", text (codes "video/v210"))
      ∷ (codes "grain_rate", rate_value (numer rate) (denom rate))
      ∷ (codes "frame_width", number width)
      ∷ (codes "frame_height", number height)
      ∷ (codes "colorspace", text (codes "BT709"))
      ∷ (
        codes "components",
        array (
            component (codes "Y") width height
            ∷ component (codes "Cb") (half width) height
            ∷ component (codes "Cr") (half width) height
            ∷ []),
      )
      ∷ interlace_field mode

  -- `build_video_body`
  unfoldable pub build_video_body : Structure → Parsed Body
  unfolding video_fields
  build_video_body s = do
    format ← required s (codes "format") (get_string s (codes "format"))
    if format == codes "v210"
        then (do
          width ← required s (codes "width") (get_i32 s (codes "width"))
          height ← required s (codes "height") (get_i32 s (codes "height"))
          rate ← required s (codes "framerate") (get_fraction s (codes "framerate"))
          ok (video, video_fields width height rate (get_string s (codes "interlace-mode"))))
        else err (unsupported_caps_value (structure_name s) (codes "format") format)

  unfoldable pub audio_fields : ℤ → ℤ → List (Text × Value)
  unfolding rate_value
  audio_fields rate channels =
      (codes "media_type", text (codes "audio/float32"))
      ∷ (codes "sample_rate", rate_value rate (pos 1))
      ∷ (codes "channel_count", number channels)
      ∷ (codes "bit_depth", number (pos 32))
      ∷ []

  -- `build_audio_body`
  unfoldable pub build_audio_body : Structure → Parsed Body
  unfolding audio_fields
  build_audio_body s = do
    format ← required s (codes "format") (get_string s (codes "format"))
    if format == codes "F32LE"
        then (do
          rate ← required s (codes "rate") (get_i32 s (codes "rate"))
          channels ← required s (codes "channels") (get_i32 s (codes "channels"))
          ok (audio, audio_fields rate channels))
        else err (unsupported_caps_value (structure_name s) (codes "format") format)

  unfoldable pub data_fields : Fraction → List (Text × Value)
  unfolding rate_value
  data_fields rate =
      (codes "media_type", text (codes "video/smpte291"))
      ∷ (codes "grain_rate", rate_value (numer rate) (denom rate))
      ∷ []

  -- `build_data_body`
  unfoldable pub build_data_body : Structure → Parsed Body
  unfolding data_fields
  build_data_body s = do
    rate ← required s (codes "framerate") (get_fraction s (codes "framerate"))
    ok (data_format, data_fields rate)

  unfoldable pub build_body : Structure → Parsed Body
  unfolding build_video_body build_audio_body build_data_body
  build_body s =
      if structure_name s == codes "video/x-raw"
      then build_video_body s
      else if structure_name s == codes "audio/x-raw"
      then build_audio_body s
      else if structure_name s == codes "meta/x-st-2038"
      then build_data_body s
      else err (unsupported_caps (structure_name s))

  abbrev pub optional : Text → Text → List (Text × Value)
  optional key [] = []
  optional key (c ∷ t) = (key, text (c ∷ t)) ∷ []

  abbrev pub hint_tag : Text → List (Text × Value)
  hint_tag [] = []
  hint_tag (c ∷ t) = (group_hint_tag, array (text (c ∷ t) ∷ [])) ∷ []

  abbrev pub or_else : Text → Text → Text
  or_else [] u = u
  or_else (c ∷ t) u = c ∷ t

  -- The fields that do not come from the caps.
  unfoldable pub common_fields : FlowDefBuildInput Structure → FlowFormat → List (Text × Value)
  unfolding object_of tag_json as_format_urn
  common_fields i format =
      (codes "format", text (elim (as_format_urn format) [ none ↦ [] | some urn ↦ urn ]))
      ∷ (codes "label", text (or_else i.label i.name))
      ∷ (codes "description", text i.description)
      ∷ (
        codes "tags",
        object_of (
            (name_tag, array (text i.name ∷ []))
            ∷ (mxl_domain_id_tag, tag_json j i.mxl_domain_id)
            ∷ hint_tag i.group_hint),
      )
      ∷ (codes "parents", array [])
      ∷ optional (codes "id") i.flow_id

  -- `from_caps`
  unfoldable pub from_caps : FlowDefBuildInput Structure → Parsed Text
  unfolding build_body common_fields insert_all
  from_caps i = if i.name == [] then err missing_name else do
    s ← ok_or i.caps empty_caps
    (format, body) ← build_body s
    ok (j.to_string (object (insert_all (insert_all new (common_fields i format)) body)))
