-- ===== src/FlowDef/Caps/Shapes.antt =====
-- The caps that each body is built from.
use nvnmos.Common.{
  ◌==◌, ==_iff, nat_Eq, text_Eq, codes, ◌≡◌, ap, ◌∙◌, inl, inr, some, arith, Bool-cases,
  Option-cases,
}
use nvnmos.FlowDef.Json.{ℤ, JsonLib}
use nvnmos.FlowDef.Types.{video, audio, data_format}
use nvnmos.FlowDef.Caps.{GstLib}
use nvnmos.FlowDef.Caps.Build.{
  Body, video_fields, build_video_body, audio_fields, build_audio_body, data_fields,
  build_data_body,
}
use nvnmos.FlowDef.Types

module _ (j : JsonLib) (g : GstLib) where
  open g use {Structure, Fraction, get_string, get_i32, get_fraction}

  -- Caps of a video, and the body of their document.
  pub record IsVideo (s : Structure) (body : Body j g) : Type 0 where
    pub width : ℤ
    pub height : ℤ
    pub rate : Fraction
    pub format : get_string s (codes "format") ≡ some (codes "v210")
    pub has_width : get_i32 s (codes "width") ≡ some width
    pub has_height : get_i32 s (codes "height") ≡ some height
    pub has_rate : get_fraction s (codes "framerate") ≡ some rate
    pub shape :
        body ≡ (video, video_fields j g width height rate (get_string s (codes "interlace-mode")))

  pub build_video_body-IsVideo :
      (s : Structure) (body : Body j g) → build_video_body j g s ≡ Types.ok body → IsVideo s body
  unfolding build_video_body
  build_video_body-IsVideo s body h = elim (Option-cases (get_string s (codes "format"))) [
    | inl q ↦ absurd (ground (arith, q))
    | inr (f, q) ↦ elim (Bool-cases (f == codes "v210")) [
      | inr n ↦ absurd (ground (arith, q, n))
      | inl n ↦ elim (Option-cases (get_i32 s (codes "width"))) [
        | inl w ↦ absurd (ground (arith, q, n, w))
        | inr (width, w) ↦ elim (Option-cases (get_i32 s (codes "height"))) [
          | inl t ↦ absurd (ground (arith, q, n, w, t))
          | inr (height, t) ↦ elim (Option-cases (get_fraction s (codes "framerate"))) [
            | inl r ↦ absurd (ground (arith, q, n, w, t, r))
            | inr (rate, r) ↦ record {
              width = width;
              height = height;
              rate = rate;
              format = q ∙ ap some ((==_iff f (codes "v210")).0 n);
              has_width = w;
              has_height = t;
              has_rate = r;
              shape = ground (arith, q, n, w, t, r);
            }
          ]
        ]
      ]
    ]
  ]

  pub record IsAudio (s : Structure) (body : Body j g) : Type 0 where
    pub rate : ℤ
    pub channels : ℤ
    pub format : get_string s (codes "format") ≡ some (codes "F32LE")
    pub has_rate : get_i32 s (codes "rate") ≡ some rate
    pub has_channels : get_i32 s (codes "channels") ≡ some channels
    pub shape : body ≡ (audio, audio_fields j g rate channels)

  pub build_audio_body-IsAudio :
      (s : Structure) (body : Body j g) → build_audio_body j g s ≡ Types.ok body → IsAudio s body
  unfolding build_audio_body
  build_audio_body-IsAudio s body h = elim (Option-cases (get_string s (codes "format"))) [
    | inl q ↦ absurd (ground (arith, q))
    | inr (f, q) ↦ elim (Bool-cases (f == codes "F32LE")) [
      | inr n ↦ absurd (ground (arith, q, n))
      | inl n ↦ elim (Option-cases (get_i32 s (codes "rate"))) [
        | inl w ↦ absurd (ground (arith, q, n, w))
        | inr (rate, w) ↦ elim (Option-cases (get_i32 s (codes "channels"))) [
          | inl t ↦ absurd (ground (arith, q, n, w, t))
          | inr (channels, t) ↦ record {
            rate = rate;
            channels = channels;
            format = q ∙ ap some ((==_iff f (codes "F32LE")).0 n);
            has_rate = w;
            has_channels = t;
            shape = ground (arith, q, n, w, t);
          }
        ]
      ]
    ]
  ]

  pub record IsData (s : Structure) (body : Body j g) : Type 0 where
    pub rate : Fraction
    pub has_rate : get_fraction s (codes "framerate") ≡ some rate
    pub shape : body ≡ (data_format, data_fields j g rate)

  pub build_data_body-IsData :
      (s : Structure) (body : Body j g) → build_data_body j g s ≡ Types.ok body → IsData s body
  unfolding build_data_body
  build_data_body-IsData s body h = elim (Option-cases (get_fraction s (codes "framerate"))) [
    | inl r ↦ absurd (ground (arith, r))
    | inr (rate, r) ↦ record { rate = rate; has_rate = r; shape = ground (arith, r) }
  ]
