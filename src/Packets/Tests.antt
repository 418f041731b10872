-- ===== src/Packets/Tests.antt =====
-- Packets on concrete caps.
use nvnmos.Common.{
  nat_Eq, text_Eq, text_eq, codes, ℕ, ◌*◌, ◌≡◌, refl, ◌≢◌, ◌⊎◌, Option, none, some, [], ◌∷◌, arith,
}
use nvnmos.FlowDef.Json.{pos}
use nvnmos.FlowDef.Caps.{GValue}
use nvnmos.FlowDef.Tests.Structures.{fields}
use nvnmos.Packets.{
  choose_packets_per_line, video_configured_stride, video_target_stride, video_from_caps,
  reconcile_sink_video_packetization, audio_from_caps, VideoPacketization, AudioPacketization,
  SinkProperties,
}
use nvnmos.Packets.Lines.{choose_packets_per_line_decides, SplitsLine, IsLeast}
use nvnmos.Packets.Video.{video_from_caps-IsCut, reconcile_sink_video_packetization-matches, IsCut}
use nvnmos.Packets.Audio.{audio_from_caps-IsRounded, IsRounded, wide}

abbrev picture : Option (fields.Structure)
picture = some (
  codes "video/x-raw",
  (codes "format", GValue.string (codes "UYVP")) ∷ (codes "width", GValue.int (pos 1920)) ∷ [],
)

abbrev cut : VideoPacketization
cut = record { sink_payload_size = 1220; src_payload_size = 1200; packets_per_line = 4 }

cuts : video_from_caps fields picture 1452 ≡ some cut
unfolding video_from_caps text_eq
cuts = refl

choose_packets_per_line_decides_example :
    ((n : ℕ) × (choose_packets_per_line 4800 1452 ≡ some n) × IsLeast (SplitsLine 4800 1452) n)
    ⊎ ((choose_packets_per_line 4800 1452 ≡ none) × ((n : ℕ) → ¬ SplitsLine 4800 1452 n))
choose_packets_per_line_decides_example = choose_packets_per_line_decides 4800 1452 (omega arith)

video_from_caps-IsCut_example :
    (stride : ℕ) × (video_target_stride fields picture ≡ some stride) × IsCut stride 1452 cut
video_from_caps-IsCut_example = video_from_caps-IsCut fields picture 1452 cut (omega arith) cuts

abbrev by_hand : SinkProperties
by_hand = record { payload_size = 1420; packets_per_line = 4 }

abbrev reconciled : SinkProperties
reconciled = record { payload_size = 1220; packets_per_line = 4 }

reconciles : reconcile_sink_video_packetization fields by_hand picture ≡ some reconciled
unfolding reconcile_sink_video_packetization text_eq
reconciles = refl

reconcile_sink_video_packetization-matches_example :
    (stride : ℕ) × (video_target_stride fields picture ≡ some stride)
    × (video_configured_stride 1220 4 ≡ stride)
    × ((reconciled ≡ by_hand) ⊎ (video_configured_stride 1420 4 ≢ stride))
    × (reconcile_sink_video_packetization fields reconciled picture ≡ some reconciled)
reconcile_sink_video_packetization-matches_example =
    reconcile_sink_video_packetization-matches fields by_hand reconciled picture reconciles

abbrev stereo : fields.Structure
stereo = (
  codes "audio/x-raw",
  (codes "format", GValue.string (codes "S24BE"))
      ∷ (codes "rate", GValue.int (pos 48000))
      ∷ (codes "channels", GValue.int (pos 2))
      ∷ [],
)

abbrev sound : Option (fields.Structure)
sound = some stereo

audio_from_caps-IsRounded_example :
    (p : AudioPacketization) × (audio_from_caps fields sound 1000000 ≡ some p)
    × IsRounded (48000 * 1000000 * 3 * 2) 1000000 p
unfolding text_eq
audio_from_caps-IsRounded_example =
    audio_from_caps-IsRounded fields stereo (codes "S24BE") 48000 2 3 1000000 refl refl refl wide
      (omega arith) (omega arith) (omega arith) (omega arith) (omega arith)

-- A packet of 16384 seconds has 4718592000 bytes, of which 32 bits hold 423624704.
abbrev too_long : AudioPacketization
too_long = record {
  sink_payload_size = 423624716;
  src_payload_size = 423624704;
  payload_multiple = 1;
}

loses_bits : audio_from_caps fields sound 16384000000000 ≡ some too_long
unfolding audio_from_caps text_eq
loses_bits = refl

abbrev captions : Option (fields.Structure)
captions = some (codes "meta/x-st-2038", [])
