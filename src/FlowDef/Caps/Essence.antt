-- ===== src/FlowDef/Caps/Essence.antt =====
-- Caps survive the way through a flow definition.
use nvnmos.Common.{
  ◌==◌, ==_iff, nat_Eq, text_Eq, text_eq, Text, codes, ◌≡◌, refl, sym, ap, ◌∙◌, inl, inr, true,
  Option, none, some, [], ◌∷◌, arith, Bool-cases, Option-cases,
}
use nvnmos.FlowDef.Json.{is_i32, ℤ, JsonLib}
use nvnmos.FlowDef.Types.{Parsed-cases}
use nvnmos.FlowDef.Caps.{GValue, GstLib}
use nvnmos.FlowDef.Caps.Build.{text, Body, build_body, from_caps, FlowDefBuildInput}
use nvnmos.FlowDef.Caps.Parse.{
  to_i32, rational_to_gst_fraction, interlace, caps_from, RawFlowDefForCaps,
}
use nvnmos.FlowDef.Caps.Document.{Deserialises, document}
use nvnmos.FlowDef.Caps.Shapes.{
  build_video_body-IsVideo, build_audio_body-IsAudio, build_data_body-IsData, IsVideo, IsAudio,
  IsData,
}
use nvnmos.FlowDef.Caps.Carried.{
  raw_video, raw_audio, raw_data, video-Carries, audio-Carries, data-Carries,
}
use nvnmos.FlowDef.Types
use nvnmos.FlowDef.Caps.Parse

module _ (g : GstLib) where
  open g use {
    Structure, Fraction, structure_name, get_string, get_i32, get_fraction, numer, denom, build,
  }

  -- The media type and the fields that make up the essence.
  pub data SameEssence (s t : Structure) : Type 0 where
    same_video :
        structure_name s ≡ codes "video/x-raw"
        → structure_name t ≡ codes "video/x-raw"
        → get_string t (codes "format") ≡ get_string s (codes "format")
        → get_i32 t (codes "width") ≡ get_i32 s (codes "width")
        → get_i32 t (codes "height") ≡ get_i32 s (codes "height")
        → get_fraction t (codes "framerate") ≡ get_fraction s (codes "framerate")
        → get_string t (codes "interlace-mode") ≡ get_string s (codes "interlace-mode")
        → SameEssence s t
    same_audio :
        structure_name s ≡ codes "audio/x-raw"
        → structure_name t ≡ codes "audio/x-raw"
        → get_string t (codes "format") ≡ get_string s (codes "format")
        → get_i32 t (codes "rate") ≡ get_i32 s (codes "rate")
        → get_i32 t (codes "channels") ≡ get_i32 s (codes "channels")
        → SameEssence s t
    same_data :
        structure_name s ≡ codes "meta/x-st-2038"
        → structure_name t ≡ codes "meta/x-st-2038"
        → get_fraction t (codes "framerate") ≡ get_fraction s (codes "framerate")
        → SameEssence s t

  rational_back :
      (field : Text) (f : Fraction)
      → rational_to_gst_fraction g field (record { numerator = numer f; denominator = denom f })
        ≡ Parse.ok f
  unfolding rational_to_gst_fraction to_i32
  rational_back field f = rw (g.numer_range f, g.denom_range f) (ap Parse.ok (g.new-numer-denom f))

  abbrev video_caps : ℤ → ℤ → Fraction → Option Text → Structure
  video_caps width height rate mode = build (codes "video/x-raw") (
      (codes "format", GValue.string (codes "v210"))
      ∷ (codes "width", GValue.int width)
      ∷ (codes "height", GValue.int height)
      ∷ (codes "framerate", GValue.fraction rate)
      ∷ interlace g mode)

  abbrev audio_caps : ℤ → ℤ → Structure
  audio_caps rate channels = build (codes "audio/x-raw") (
      (codes "format", GValue.string (codes "F32LE"))
      ∷ (codes "rate", GValue.int rate)
      ∷ (codes "channels", GValue.int channels)
      ∷ (codes "layout", GValue.string (codes "interleaved"))
      ∷ [])

  abbrev data_caps : Fraction → Structure
  data_caps rate = build (codes "meta/x-st-2038") ((codes "framerate", GValue.fraction rate) ∷ [])

  interlace_back :
      (width height : ℤ) (rate : Fraction) (mode : Option Text)
      → get_string (video_caps width height rate mode) (codes "interlace-mode") ≡ mode
  unfolding text_eq
  interlace_back width height rate none = g.get_string-build _ _ (codes "interlace-mode")
  interlace_back width height rate (some m) = g.get_string-build _ _ (codes "interlace-mode")

  module _ (j : JsonLib) (deserialise : Text → Option RawFlowDefForCaps)
      (derived : Deserialises j deserialise) where
    caps_from-video :
        (text : Text) (width height : ℤ) (rate : Fraction) (mode : Option Text)
        → deserialise text ≡ some (raw_video j g width height rate mode)
        → caps_from g deserialise text ≡ Parse.ok (video_caps width height rate mode)
    unfolding caps_from text_eq
    caps_from-video text width height rate mode h =
        rw h (rw (rational_back (codes "grain_rate") rate) refl)

    caps_from-audio :
        (text : Text) (rate channels : ℤ)
        → is_i32 rate ≡ true
        → deserialise text ≡ some (raw_audio j g rate channels)
        → caps_from g deserialise text ≡ Parse.ok (audio_caps rate channels)
    unfolding caps_from to_i32 text_eq
    caps_from-audio text rate channels p h = rw h (rw p refl)

    caps_from-data :
        (text : Text) (rate : Fraction)
        → deserialise text ≡ some (raw_data j g rate)
        → caps_from g deserialise text ≡ Parse.ok (data_caps rate)
    unfolding caps_from text_eq
    caps_from-data text rate h = rw h (rw (rational_back (codes "grain_rate") rate) refl)

    abbrev printed : FlowDefBuildInput Structure → Body j g → Text
    printed i body = j.to_string (j.object (document j g i body.0 body.1))

    module _ (i : FlowDefBuildInput Structure) (s : Structure) (body : Body j g) where
      Back : Type 0
      Back =
          (t : Structure) × (caps_from g deserialise (printed i body) ≡ Parse.ok t)
          × SameEssence s t

      back-IsVideo : structure_name s ≡ codes "video/x-raw" → IsVideo j g s body → Back
      unfolding Back text_eq
      back-IsVideo n v =
          let mode = get_string s (codes "interlace-mode") in
          let width_fits = g.get_i32_range s _ v.width (v.has_width) in
          let height_fits = g.get_i32_range s _ v.height (v.has_height) in
          let carries = video-Carries j g i v.width v.height v.rate mode width_fits height_fits in
          rw (v.shape) (
            video_caps v.width v.height v.rate mode,
            caps_from-video _ v.width v.height v.rate mode (derived _ _ carries),
            same_video n (g.structure_name-build _ _)
                (g.get_string-build _ _ (codes "format") ∙ sym (v.format))
                (g.get_i32-build _ _ (codes "width") v.width refl width_fits ∙ sym (v.has_width))
                (g.get_i32-build _ _ (codes "height") v.height refl height_fits
                  ∙ sym (v.has_height))
                (g.get_fraction-build _ _ (codes "framerate") ∙ sym (v.has_rate))
                (interlace_back v.width v.height v.rate mode),
          )

      back-IsAudio : structure_name s ≡ codes "audio/x-raw" → IsAudio j g s body → Back
      unfolding Back text_eq
      back-IsAudio n v =
          let rate_fits = g.get_i32_range s _ v.rate (v.has_rate) in
          let channels_fits = g.get_i32_range s _ v.channels (v.has_channels) in
          let carries = audio-Carries j g i v.rate v.channels rate_fits channels_fits in
          rw (v.shape) (
            audio_caps v.rate v.channels,
            caps_from-audio _ v.rate v.channels rate_fits (derived _ _ carries),
            same_audio n (g.structure_name-build _ _)
                (g.get_string-build _ _ (codes "format") ∙ sym (v.format))
                (g.get_i32-build _ _ (codes "rate") v.rate refl rate_fits ∙ sym (v.has_rate))
                (g.get_i32-build _ _ (codes "channels") v.channels refl channels_fits
                  ∙ sym (v.has_channels)),
          )

      back-IsData : structure_name s ≡ codes "meta/x-st-2038" → IsData j g s body → Back
      unfolding Back text_eq
      back-IsData n v = rw (v.shape) (
        data_caps v.rate,
        caps_from-data _ v.rate (derived _ _ (data-Carries j g i v.rate)),
        same_data n (g.structure_name-build _ _)
            (g.get_fraction-build _ _ (codes "framerate") ∙ sym (v.has_rate)),
      )

      back-build_body : build_body j g s ≡ Types.ok body → Back
      unfolding build_body
      back-build_body h = elim (Bool-cases (structure_name s == codes "video/x-raw")) [
        | inl n ↦
            back-IsVideo ((==_iff _ _).0 n)
              (build_video_body-IsVideo j g s body (ground (arith, n)))
        | inr n ↦ elim (Bool-cases (structure_name s == codes "audio/x-raw")) [
          | inl m ↦
              back-IsAudio ((==_iff _ _).0 m)
                (build_audio_body-IsAudio j g s body (ground (arith, n, m)))
          | inr m ↦ elim (Bool-cases (structure_name s == codes "meta/x-st-2038")) [
            | inl k ↦
                back-IsData ((==_iff _ _).0 k)
                  (build_data_body-IsData j g s body (ground (arith, n, m, k)))
            | inr k ↦ absurd (ground (arith, n, m, k))
          ]
        ]
      ]

    -- Where a flow definition can be built from caps, it can be read back, and the caps that come back
    -- are of the same essence.
    pub caps_from-from_caps :
        (i : FlowDefBuildInput Structure) (text : Text)
        → from_caps j g i ≡ Types.ok text
        → (s : Structure) × (t : Structure) × (i.caps ≡ some s)
          × (caps_from g deserialise text ≡ Parse.ok t)
          × SameEssence s t
    unfolding from_caps Back
    caps_from-from_caps i text h = elim (Option-cases i.caps) [
      | inl q ↦ absurd (ground (arith, q))
      | inr (s, q) ↦ elim (Parsed-cases (build_body j g s)) [
        | inl (e, b) ↦ absurd (ground (arith, q, b))
        | inr (body, b) ↦
            let (t, back, same) = back-build_body i s body b in
            let shown : text ≡ printed i body = ground (arith, q, b) in
            (s, t, q, rw shown back, same)
      ]
    ]
