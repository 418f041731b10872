-- ===== src/FlowDef/Caps/Parse.antt =====
-- `caps_from` of rust/gst-nmos-rs/src/flow_def.rs: essence caps from a flow definition.
use nvnmos.Common.{
  ◌==◌, nat_Eq, text_Eq, Text, codes, Bool, false, Option, none, some, List, [], ◌∷◌, nat_eq,
  if◌then◌else◌,
}
use nvnmos.FlowDef.Json.{is_i32, ℤ, pos, negsuc}
use nvnmos.FlowDef.Caps.{GValue, GstLib}

pub record RawRational : Type 0 where
  pub numerator : ℤ
  pub denominator : ℤ

pub record RawFlowDefForCaps : Type 0 where
  pub media_type : Option Text
  pub grain_rate : Option RawRational
  pub sample_rate : Option RawRational
  pub frame_width : Option ℤ
  pub frame_height : Option ℤ
  pub channel_count : Option ℤ
  pub interlace_mode : Option Text

pub data FlowDefCapsError : Type 0 where
  parse : FlowDefCapsError
  missing_field : Text → FlowDefCapsError
  unsupported_media_type : Text → FlowDefCapsError
  out_of_range_field : Text → ℤ → FlowDefCapsError

pub data Outcome {ℓ} (A : Type ℓ) : Type ℓ where
  ok : A → Outcome A
  err : FlowDefCapsError → Outcome A

infixl 5 ◌>>=◌
abbrev pub ◌>>=◌ {ℓ κ} : {A : Type ℓ} {B : Type κ} → Outcome A → (A → Outcome B) → Outcome B
ok a >>= f = f a
err c >>= f = err c

abbrev pub ok_or {ℓ} : {A : Type ℓ} → Option A → FlowDefCapsError → Outcome A
ok_or none c = err c
ok_or (some a) c = ok a

abbrev pub is_one : ℤ → Bool
is_one (pos n) = nat_eq n 1
is_one (negsuc n) = false

module _ (g : GstLib) where
  open g use {Structure, Fraction, new_fraction, build}

  -- `try_into` an `i32`
  unfoldable pub to_i32 : Text → ℤ → Outcome ℤ
  to_i32 field n = if is_i32 n then ok n else err (out_of_range_field field n)

  -- `rational_to_gst_fraction`
  unfoldable pub rational_to_gst_fraction : Text → RawRational → Outcome Fraction
  unfolding to_i32
  rational_to_gst_fraction field r = do
    num ← to_i32 field r.numerator
    den ← to_i32 field r.denominator
    ok (new_fraction num den)

  abbrev pub interlace : Option Text → List (Text × GValue Fraction)
  interlace none = []
  interlace (some mode) = (codes "interlace-mode", GValue.string mode) ∷ []

  unfoldable pub caps_from_video : RawFlowDefForCaps → Outcome Structure
  unfolding rational_to_gst_fraction
  caps_from_video raw = do
    rate ← ok_or raw.grain_rate (missing_field (codes "grain_rate"))
    width ← ok_or raw.frame_width (missing_field (codes "frame_width"))
    height ← ok_or raw.frame_height (missing_field (codes "frame_height"))
    framerate ← rational_to_gst_fraction (codes "grain_rate") rate
    ok (
        build (codes "video/x-raw") (
          (codes "format", GValue.string (codes "v210"))
          ∷ (codes "width", GValue.int width)
          ∷ (codes "height", GValue.int height)
          ∷ (codes "framerate", GValue.fraction framerate)
          ∷ interlace raw.interlace_mode))

  unfoldable pub caps_from_audio : RawFlowDefForCaps → Outcome Structure
  unfolding to_i32
  caps_from_audio raw = do
    rate ← ok_or raw.sample_rate (missing_field (codes "sample_rate"))
    channels ← ok_or raw.channel_count (missing_field (codes "channel_count"))
    if is_one rate.denominator
        then (to_i32 (codes "sample_rate.numerator") rate.numerator >>= λ hertz. ok (
            build (codes "audio/x-raw") (
              (codes "format", GValue.string (codes "F32LE"))
              ∷ (codes "rate", GValue.int hertz)
              ∷ (codes "channels", GValue.int channels)
              ∷ (codes "layout", GValue.string (codes "interleaved"))
              ∷ [])))
        else err (out_of_range_field (codes "sample_rate.denominator") rate.denominator)

  unfoldable pub caps_from_data : RawFlowDefForCaps → Outcome Structure
  unfolding rational_to_gst_fraction
  caps_from_data raw = do
    rate ← ok_or raw.grain_rate (missing_field (codes "grain_rate"))
    framerate ← rational_to_gst_fraction (codes "grain_rate") rate
    ok (build (codes "meta/x-st-2038") ((codes "framerate", GValue.fraction framerate) ∷ []))

  -- `caps_from`; `deserialise` is serde's, for the fields of the raw record
  unfoldable pub caps_from : (Text → Option RawFlowDefForCaps) → Text → Outcome Structure
  unfolding caps_from_video caps_from_audio caps_from_data
  caps_from deserialise text = do
    raw ← ok_or (deserialise text) parse
    media_type ← ok_or raw.media_type (missing_field (codes "media_type"))
    if media_type == codes "video/v210"
        then caps_from_video raw
        else if media_type == codes "audio/float32"
        then caps_from_audio raw
        else if media_type == codes "video/smpte291"
        then caps_from_data raw
        else err (unsupported_media_type media_type)
