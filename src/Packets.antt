-- ===== src/Packets.antt =====
-- Packetization for the ST 2110 elements of DeepStream: rust/gst-nmos-rs/src/nvdsudp/packetization.rs.
-- Sizes are `u32`, whose sums and products wrap; an error is `none`.
pub mod Lines
pub mod Video
pub mod Audio
pub mod Ancillary
mod Tests
use nvnmos.Common.{
  ◌==◌, nat_Eq, text_Eq, Text, codes, ℕ, zero, suc, ◌+◌, ◌-◌, ◌*◌, ◌/◌, ◌%◌, ◌^◌, min, Bool, ◌&&◌,
  ◌||◌, not, Option, none, some, ltb, nat_eq, if◌then◌else◌, is_some,
}
use nvnmos.FlowDef.Json.{ℤ, pos, negsuc}
use nvnmos.FlowDef.Types.{FlowFormat}
use nvnmos.FlowDef.Caps.{GstLib}
use nvnmos.FlowDef.Types

abbrev pub video_header_size : ℕ
video_header_size = 20

abbrev pub audio_header_size : ℕ
audio_header_size = 12

abbrev pub default_max_video_rtp_payload : ℕ
default_max_video_rtp_payload = 1452

abbrev pub default_ptime_ns : ℕ
default_ptime_ns = 1000000

abbrev pub default_audio_buffer_ns : ℕ
default_audio_buffer_ns = 16000000

abbrev pub min_src_payload_per_packet : ℕ
min_src_payload_per_packet = 800

pub record VideoPacketization : Type 0 where
  pub sink_payload_size : ℕ
  pub src_payload_size : ℕ
  pub packets_per_line : ℕ

pub record AudioPacketization : Type 0 where
  pub sink_payload_size : ℕ
  pub src_payload_size : ℕ
  pub payload_multiple : ℕ

pub data Packetization : Type 0 where
  video : VideoPacketization → Packetization
  audio : AudioPacketization → Packetization
  anc : Packetization

pub record VideoPgroup : Type 0 where
  pub pixels_per_group : ℕ
  pub bytes_per_group : ℕ

infixl 5 ◌>>=◌
abbrev pub ◌>>=◌ {ℓ κ} : {A : Type ℓ} {B : Type κ} → Option A → (A → Option B) → Option B
none >>= f = none
some a >>= f = f a

-- `checked_mul` on an integer of that many bits
unfoldable pub checked_mul : ℕ → ℕ → ℕ → Option ℕ
checked_mul bits a b = if ltb (a * b) (2 ^ bits) then some (a * b) else none

-- `div_ceil`
unfoldable pub div_ceil : ℕ → ℕ → ℕ
div_ceil a b = if nat_eq (a % b) 0 then a / b else a / b + 1

-- `is_multiple_of`; the remainder by 0 is the number itself
unfoldable pub is_multiple_of : ℕ → ℕ → Bool
is_multiple_of a b = nat_eq (a % b) 0

-- `u32::try_from` an `i32`
unfoldable pub to_u32 : ℤ → Option ℕ
to_u32 (pos n) = some n
to_u32 (negsuc n) = none

-- `video_pgroup`
unfoldable pub video_pgroup : Text → Option VideoPgroup
video_pgroup format =
    if format == codes "UYVY"
    then some (record { pixels_per_group = 1; bytes_per_group = 2 })
    else if format == codes "UYVP"
    then some (record { pixels_per_group = 2; bytes_per_group = 5 })
    else if format == codes "RGB"
    then some (record { pixels_per_group = 1; bytes_per_group = 3 })
    else none

-- `video_line_stride`
unfoldable pub video_line_stride : ℕ → Text → Option ℕ
unfolding checked_mul div_ceil video_pgroup
video_line_stride width format = do
  pg ← video_pgroup format
  let padded_width = div_ceil width pg.pixels_per_group * pg.pixels_per_group % 2 ^ 32
  checked_mul 32 (padded_width / pg.pixels_per_group) pg.bytes_per_group

-- The loop of `choose_packets_per_line`, over that many numbers.
unfoldable pub first_divisor : ℕ → ℕ → ℕ → Option ℕ
unfolding is_multiple_of
first_divisor stride ppl zero = none
first_divisor stride ppl (suc left) =
    let rest = first_divisor stride (suc ppl) left in
    if is_multiple_of stride ppl then some ppl else rest

-- `choose_packets_per_line`
unfoldable pub choose_packets_per_line : ℕ → ℕ → Option ℕ
unfolding div_ceil first_divisor
choose_packets_per_line stride max_rtp_payload =
    let min_ppl = div_ceil stride max_rtp_payload in
    let max_ppl = stride / min_src_payload_per_packet in
    if nat_eq max_rtp_payload 0
    then none
    else if ltb max_ppl min_ppl
    then none
    else first_divisor stride min_ppl (max_ppl + 1 - min_ppl)

-- `audio_sample_bytes`
unfoldable pub audio_sample_bytes : Text → Option ℕ
audio_sample_bytes format =
    if format == codes "S24BE" then some 3 else if format == codes "S16BE" then some 2 else none

-- What comes of the packet's size in thousand-millionths of a byte.
unfoldable pub audio_sizes : ℕ → ℕ → Option AudioPacketization
audio_sizes ptime_ns numerator =
    let src_payload = (numerator + 500000000) % 2 ^ 64 / 1000000000 % 2 ^ 32 in
    let multiple = (default_audio_buffer_ns + ptime_ns / 2) / ptime_ns in
    if nat_eq src_payload 0
    then none
    else some (record {
      sink_payload_size = (src_payload + audio_header_size) % 2 ^ 32;
      src_payload_size = src_payload;
      payload_multiple = (if ltb multiple 1 then 1 else multiple) % 2 ^ 32;
    })

-- `video_configured_stride`
unfoldable pub video_configured_stride : ℕ → ℕ → ℕ
video_configured_stride sink_payload_size packets_per_line =
    min ((sink_payload_size - video_header_size) * packets_per_line) (2 ^ 32 - 1)

abbrev pub split_line : ℕ → ℕ → VideoPacketization
split_line stride packets_per_line = record {
  sink_payload_size = (stride / packets_per_line + video_header_size) % 2 ^ 32;
  src_payload_size = stride / packets_per_line;
  packets_per_line = packets_per_line;
}

-- The two properties of `nvdsudpsink`.
pub record SinkProperties : Type 0 where
  pub payload_size : ℕ
  pub packets_per_line : ℕ

-- Caps are given by their first structure.
module _ (g : GstLib) where
  open g use {Structure, structure_name, get_string, get_i32, set_string}

  -- `anc_from_caps`
  unfoldable pub anc_from_caps : Option Structure → Option Packetization
  anc_from_caps caps = do
    s ← caps
    if structure_name s == codes "meta/x-st-2038"
        then elim (get_string s (codes "alignment")) [
          | none ↦ some Packetization.anc
          | some other ↦ if other == codes "frame" then some Packetization.anc else none
        ]
        else none

  -- `with_st2038_frame_alignment`
  unfoldable pub with_st2038_frame_alignment : Option Structure → Option Structure
  with_st2038_frame_alignment none = none
  with_st2038_frame_alignment (some s) =
      if structure_name s == codes "meta/x-st-2038"
        && not (is_some (get_string s (codes "alignment")))
      then some (set_string s (codes "alignment") (codes "frame"))
      else some s

  -- A field that must be there and not negative.
  unfoldable pub unsigned_field : Structure → Text → Option ℕ
  unfolding to_u32
  unsigned_field s k = do n ← get_i32 s k; to_u32 n

  -- `video_target_stride`
  unfoldable pub video_target_stride : Option Structure → Option ℕ
  unfolding unsigned_field video_line_stride
  video_target_stride caps = do
    s ← caps
    format ← get_string s (codes "format")
    width ← unsigned_field s (codes "width")
    video_line_stride width format

  -- `video_from_caps`
  unfoldable pub video_from_caps : Option Structure → ℕ → Option VideoPacketization
  unfolding unsigned_field video_line_stride choose_packets_per_line
  video_from_caps caps max_rtp_payload = do
    s ← caps
    format ← get_string s (codes "format")
    width ← unsigned_field s (codes "width")
    stride ← (if nat_eq width 0 then none else video_line_stride width format)
    packets_per_line ←
        (if nat_eq stride 0 then none else choose_packets_per_line stride max_rtp_payload)
    some (split_line stride packets_per_line)

  -- `reconcile_sink_video_packetization`, of what it reads of the sink and sets there
  unfoldable pub reconcile_sink_video_packetization :
      SinkProperties → Option Structure → Option SinkProperties
  unfolding video_from_caps video_target_stride video_configured_stride
  reconcile_sink_video_packetization sink caps = do
    calculated ← video_from_caps caps default_max_video_rtp_payload
    target_stride ← video_target_stride caps
    if nat_eq (video_configured_stride sink.payload_size sink.packets_per_line) target_stride
        then some sink
        else some (record {
          payload_size = calculated.sink_payload_size;
          packets_per_line = calculated.packets_per_line;
        })

  -- The product in `audio_from_caps`.
  unfoldable pub audio_numerator : Option Structure → ℕ → Option ℕ
  unfolding unsigned_field audio_sample_bytes checked_mul
  audio_numerator caps ptime_ns = do
    s ← caps
    format ← get_string s (codes "format")
    rate ← unsigned_field s (codes "rate")
    channels ← unsigned_field s (codes "channels")
    sample_bytes ← (if nat_eq rate 0 || nat_eq channels 0 then none else audio_sample_bytes format)
    n ← checked_mul 64 rate ptime_ns
    m ← checked_mul 64 n sample_bytes
    checked_mul 64 m channels

  -- `audio_from_caps`
  unfoldable pub audio_from_caps : Option Structure → ℕ → Option AudioPacketization
  unfolding audio_numerator audio_sizes
  audio_from_caps caps ptime_ns = do
    numerator ← (if nat_eq ptime_ns 0 then none else audio_numerator caps ptime_ns)
    audio_sizes ptime_ns numerator

  -- `ptime_ns_from_rtp_caps`; `parse` reads decimal milliseconds
  unfoldable pub ptime_ns_from_rtp_caps : (Text → Option ℕ) → Option Structure → Option ℕ
  ptime_ns_from_rtp_caps parse none = some default_ptime_ns
  ptime_ns_from_rtp_caps parse (some s) = elim (get_string s (codes "a-ptime")) [
    | none ↦ some default_ptime_ns
    | some ptime ↦ parse ptime
  ]

  -- `from_media`
  unfoldable pub from_media :
      (Text → Option ℕ) → FlowFormat → Option Structure → Option Structure → Option Packetization
  unfolding video_from_caps audio_from_caps anc_from_caps ptime_ns_from_rtp_caps
  from_media parse FlowFormat.video caps rtp_caps = do
    pkt ← video_from_caps caps default_max_video_rtp_payload
    some (Packetization.video pkt)
  from_media parse FlowFormat.audio caps rtp_caps = do
    ptime_ns ← ptime_ns_from_rtp_caps parse rtp_caps
    pkt ← audio_from_caps caps ptime_ns
    some (Packetization.audio pkt)
  from_media parse FlowFormat.data_format caps rtp_caps = anc_from_caps caps
  from_media parse FlowFormat.unspecified caps rtp_caps = none
