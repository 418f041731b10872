-- ===== src/FlowDef/Caps/Carried.antt =====
-- What a document that was built from caps carries, for each kind of essence.
use nvnmos.Common.{
  nat_Eq, text_Eq, text_eq, Text, codes, ◌≡◌, refl, true, false, Option, none, some, List,
}
use nvnmos.FlowDef.Json.{is_i32, ℤ, JsonLib, pos}
use nvnmos.FlowDef.Types.{FlowFormat, video, audio, data_format}
use nvnmos.FlowDef.Caps.{GstLib}
use nvnmos.FlowDef.Caps.Build.{video_fields, audio_fields, data_fields, FlowDefBuildInput}
use nvnmos.FlowDef.Caps.Parse.{RawRational, RawFlowDefForCaps}
use nvnmos.FlowDef.Caps.Document.{
  last_field, document, is_common, get-document, carries_rate, Carries,
}

module _ (j : JsonLib) (g : GstLib) where
  open g use {
    Structure, Fraction, structure_name, get_string, get_i32, get_fraction, numer, denom, build,
  }

  abbrev pub rational : Fraction → RawRational
  rational f = record { numerator = numer f; denominator = denom f }

  abbrev pub raw_video : ℤ → ℤ → Fraction → Option Text → RawFlowDefForCaps
  raw_video width height rate mode = record {
    media_type = some (codes "video/v210");
    grain_rate = some (rational rate);
    sample_rate = none;
    frame_width = some width;
    frame_height = some height;
    channel_count = none;
    interlace_mode = mode;
  }

  abbrev pub raw_audio : ℤ → ℤ → RawFlowDefForCaps
  raw_audio rate channels = record {
    media_type = some (codes "audio/float32");
    grain_rate = none;
    sample_rate = some (record { numerator = rate; denominator = pos 1 });
    frame_width = none;
    frame_height = none;
    channel_count = some channels;
    interlace_mode = none;
  }

  abbrev pub raw_data : Fraction → RawFlowDefForCaps
  raw_data rate = record {
    media_type = some (codes "video/smpte291");
    grain_rate = some (rational rate);
    sample_rate = none;
    frame_width = none;
    frame_height = none;
    channel_count = none;
    interlace_mode = none;
  }

  module _ (i : FlowDefBuildInput Structure) where
    carried :
        (format : FlowFormat) (body : List (Text × j.Value)) (k : Text)
        → is_common j g k ≡ false
        → j.get (document j g i format body) k ≡ last_field j g k body none
    carried format body k h = get-document j g i format body k h

    pub video-Carries :
        (width height : ℤ) (rate : Fraction) (mode : Option Text)
        → is_i32 width ≡ true
        → is_i32 height ≡ true
        → let body = video_fields j g width height rate mode in
          Carries j (document j g i video body) (raw_video width height rate mode)
    unfolding video_fields text_eq
    video-Carries width height rate none p q =
        let body = video_fields j g width height rate none in
        record {
          media_type = (
            _,
            carried video body (codes "media_type") refl,
            j.as_str-string (codes "video/v210"),
          );
          grain_rate =
              carries_rate j g _ (codes "grain_rate") (numer rate) (denom rate) (g.numer_range rate)
                (g.denom_range rate) (carried video body (codes "grain_rate") refl);
          sample_rate = carried video body (codes "sample_rate") refl;
          frame_width = (_, carried video body (codes "frame_width") refl, j.as_i64-number width p);
          frame_height =
              (_, carried video body (codes "frame_height") refl, j.as_i64-number height q);
          channel_count = carried video body (codes "channel_count") refl;
          interlace_mode = carried video body (codes "interlace_mode") refl;
          width_fits = p;
          height_fits = q;
          count_fits = refl;
        }
    video-Carries width height rate (some mode) p q =
        let body = video_fields j g width height rate (some mode) in
        record {
          media_type = (
            _,
            carried video body (codes "media_type") refl,
            j.as_str-string (codes "video/v210"),
          );
          grain_rate =
              carries_rate j g _ (codes "grain_rate") (numer rate) (denom rate) (g.numer_range rate)
                (g.denom_range rate) (carried video body (codes "grain_rate") refl);
          sample_rate = carried video body (codes "sample_rate") refl;
          frame_width = (_, carried video body (codes "frame_width") refl, j.as_i64-number width p);
          frame_height =
              (_, carried video body (codes "frame_height") refl, j.as_i64-number height q);
          channel_count = carried video body (codes "channel_count") refl;
          interlace_mode =
              (_, carried video body (codes "interlace_mode") refl, j.as_str-string mode);
          width_fits = p;
          height_fits = q;
          count_fits = refl;
        }

    pub audio-Carries :
        (rate channels : ℤ)
        → is_i32 rate ≡ true
        → is_i32 channels ≡ true
        → Carries j
            (document j g i audio (audio_fields j g rate channels))
            (raw_audio rate channels)
    unfolding audio_fields text_eq
    audio-Carries rate channels p q =
        let body = audio_fields j g rate channels in
        record {
          media_type = (
            _,
            carried audio body (codes "media_type") refl,
            j.as_str-string (codes "audio/float32"),
          );
          grain_rate = carried audio body (codes "grain_rate") refl;
          sample_rate =
              carries_rate j g _ (codes "sample_rate") rate (pos 1) p refl
                (carried audio body (codes "sample_rate") refl);
          frame_width = carried audio body (codes "frame_width") refl;
          frame_height = carried audio body (codes "frame_height") refl;
          channel_count =
              (_, carried audio body (codes "channel_count") refl, j.as_i64-number channels q);
          interlace_mode = carried audio body (codes "interlace_mode") refl;
          width_fits = refl;
          height_fits = refl;
          count_fits = q;
        }

    pub data-Carries :
        (rate : Fraction)
        → Carries j (document j g i data_format (data_fields j g rate)) (raw_data rate)
    unfolding data_fields text_eq
    data-Carries rate =
        let body = data_fields j g rate in
        record {
          media_type = (
            _,
            carried data_format body (codes "media_type") refl,
            j.as_str-string (codes "video/smpte291"),
          );
          grain_rate =
              carries_rate j g _ (codes "grain_rate") (numer rate) (denom rate) (g.numer_range rate)
                (g.denom_range rate) (carried data_format body (codes "grain_rate") refl);
          sample_rate = carried data_format body (codes "sample_rate") refl;
          frame_width = carried data_format body (codes "frame_width") refl;
          frame_height = carried data_format body (codes "frame_height") refl;
          channel_count = carried data_format body (codes "channel_count") refl;
          interlace_mode = carried data_format body (codes "interlace_mode") refl;
          width_fits = refl;
          height_fits = refl;
          count_fits = refl;
        }
