-- ===== src/Packets/Video.antt =====
-- The packets of a video line, and the sink that they are set on: `video_from_caps` and
-- `reconcile_sink_video_packetization` of rust/gst-nmos-rs/src/nvdsudp/packetization.rs.
use nvnmos.Common.{
  nat_Eq, text_Eq, Text, codes, ℕ, zero, suc, ◌+◌, ◌-◌, ◌*◌, ◌/◌, ◌%◌, ◌^◌, ◌≤◌, ◌<◌, ◌≡◌, refl,
  subst, ◌≢◌, ◌⊎◌, inl, inr, Option, none, some, arith, nat_eq, nat_eq_iff, Bool-cases,
  Option-cases,
}
use nvnmos.FlowDef.Caps.{GstLib}
use nvnmos.Packets.{
  video_header_size, default_max_video_rtp_payload, min_src_payload_per_packet, checked_mul,
  div_ceil, is_multiple_of, video_pgroup, video_line_stride, choose_packets_per_line,
  video_configured_stride, split_line, unsigned_field, video_target_stride, video_from_caps,
  reconcile_sink_video_packetization, VideoPacketization, SinkProperties,
}
use nvnmos.Packets.Lines.{choose_packets_per_line_decides, SplitsLine, IsLeast}
use native.Mathlib.Nat.{div-add-mod', mul_comm, le-div_iff_mul-le, le_of_mul-le-mul_left}

-- A line is cut into packets of equal size, within the limits, and into as few as that allows.
pub record IsCut (stride max_rtp_payload : ℕ) (p : VideoPacketization) : Type 0 where
  pub fewest : IsLeast (SplitsLine stride max_rtp_payload) p.packets_per_line
  pub adds_up : p.src_payload_size * p.packets_per_line ≡ stride
  pub large : min_src_payload_per_packet ≤ p.src_payload_size
  pub small : p.src_payload_size ≤ max_rtp_payload
  pub fits : stride < 2 ^ 32
  pub headed : p.sink_payload_size ≡ (p.src_payload_size + video_header_size) % 2 ^ 32

some_packets : (stride max_rtp_payload n : ℕ) → 0 < stride → stride ≤ n * max_rtp_payload → 0 < n
some_packets stride max_rtp_payload zero h l = absurd (omega arith)
some_packets stride max_rtp_payload (suc n) h l = omega arith

split_line-IsCut :
    (stride max_rtp_payload n : ℕ)
    → 0 < stride
    → stride < 2 ^ 32
    → IsLeast (SplitsLine stride max_rtp_payload) n
    → IsCut stride max_rtp_payload (split_line stride n)
unfolding is_multiple_of
split_line-IsCut stride max_rtp_payload n h fits l =
    let exact : stride / n * n ≡ stride = ground (arith, div-add-mod' stride n, l.holds.whole) in
    let positive = some_packets stride max_rtp_payload n h (l.holds.at_most) in
    record {
      fewest = l;
      adds_up = exact;
      large =
          (le-div_iff_mul-le {k = n} {x = min_src_payload_per_packet} {y = stride} positive).1
            (ground (arith, l.holds.at_least, mul_comm n min_src_payload_per_packet));
      small =
          le_of_mul-le-mul_left {m = stride / n} {n = max_rtp_payload} {k = n}
            (rw (mul_comm n (stride / n), exact) (l.holds.at_most)) positive;
      fits = fits;
      headed = refl;
    }

checked_mul-fits : (bits a b n : ℕ) → checked_mul bits a b ≡ some n → n < 2 ^ bits
unfolding checked_mul
checked_mul-fits bits a b n h = ground arith

video_line_stride-u32 :
    (width : ℕ) (format : Text) (stride : ℕ)
    → video_line_stride width format ≡ some stride
    → stride < 2 ^ 32
unfolding video_line_stride
video_line_stride-u32 width format stride h = elim (Option-cases (video_pgroup format)) [
  | inl q ↦ absurd (ground (arith, q))
  | inr (pg, q) ↦
      let groups =
        div_ceil width pg.pixels_per_group * pg.pixels_per_group % 2 ^ 32 / pg.pixels_per_group in
      checked_mul-fits 32 groups pg.bytes_per_group stride (ground (arith, q))
]

module _ (g : GstLib) where
  open g use {Structure, get_string}

  -- What success tells of the steps.
  cut_of :
      (caps : Option Structure) (max_rtp_payload : ℕ) (p : VideoPacketization)
      → video_from_caps g caps max_rtp_payload ≡ some p
      → (stride n : ℕ) × (video_target_stride g caps ≡ some stride)
        × (0 < stride)
        × (stride < 2 ^ 32)
        × (choose_packets_per_line stride max_rtp_payload ≡ some n)
        × (p ≡ split_line stride n)
  unfolding video_from_caps video_target_stride
  cut_of none max_rtp_payload p h = absurd (ground arith)
  cut_of (some s) max_rtp_payload p h = elim (Option-cases (get_string s (codes "format"))) [
    | inl q ↦ absurd (ground (arith, q))
    | inr (format, q) ↦ elim (Option-cases (unsigned_field g s (codes "width"))) [
      | inl k ↦ absurd (ground (arith, q, k))
      | inr (width, k) ↦ elim (Option-cases (video_line_stride width format)) [
        | inl l ↦ absurd (ground (arith, q, k, l))
        | inr (stride, l) ↦ elim (Option-cases (choose_packets_per_line stride max_rtp_payload)) [
          | inl m ↦ absurd (ground (arith, q, k, l, m))
          | inr (n, m) ↦ (
            stride,
            n,
            rw (q, k) l,
            ground (arith, q, k, l, m),
            video_line_stride-u32 width format stride l,
            m,
            ground (arith, q, k, l, m),
          )
        ]
      ]
    ]
  ]

  -- When a video line is cut into packets, they are of equal size, between 800 bytes and the limit, add
  -- up to the line that the caps ask for, and are as few as these bounds allow.
  pub video_from_caps-IsCut :
      (caps : Option Structure) (max_rtp_payload : ℕ) (p : VideoPacketization)
      → 0 < max_rtp_payload
      → video_from_caps g caps max_rtp_payload ≡ some p
      → (stride : ℕ) × (video_target_stride g caps ≡ some stride) × IsCut stride max_rtp_payload p
  video_from_caps-IsCut caps max_rtp_payload p h e =
      let (stride, n, t, positive, fits, c, q) = cut_of caps max_rtp_payload p e in
      elim (choose_packets_per_line_decides stride max_rtp_payload h) [
        | inr (missing, _) ↦ absurd (ground (arith, c, missing))
        | inl (m, chosen, l) ↦
            let same : m ≡ n = ground (arith, c, chosen) in
            (
              stride,
              t,
              rw q (
                  split_line-IsCut stride max_rtp_payload n positive fits
                    (subst (IsLeast (SplitsLine stride max_rtp_payload)) same l)),
            )
      ]

  -- What the sink reads back from a cut is the line.
  IsCut-configured :
      (stride max_rtp_payload : ℕ) (p : VideoPacketization)
      → max_rtp_payload + video_header_size < 2 ^ 32
      → IsCut stride max_rtp_payload p
      → video_configured_stride p.sink_payload_size p.packets_per_line ≡ stride
  unfolding video_configured_stride
  IsCut-configured stride max_rtp_payload p k c =
      let size : p.sink_payload_size ≡ p.src_payload_size + video_header_size =
        ground (arith, c.headed, c.small) in
      let back : p.src_payload_size + video_header_size - video_header_size ≡ p.src_payload_size =
        omega arith in
      rw (size, back, c.adds_up) (ground (arith, c.fits))

  abbrev set_on : VideoPacketization → SinkProperties
  set_on p = record { payload_size = p.sink_payload_size; packets_per_line = p.packets_per_line }

  settled :
      (caps : Option Structure) (stride : ℕ) (p : VideoPacketization) (sink : SinkProperties)
      → video_from_caps g caps default_max_video_rtp_payload ≡ some p
      → video_target_stride g caps ≡ some stride
      → video_configured_stride sink.payload_size sink.packets_per_line ≡ stride
      → reconcile_sink_video_packetization g sink caps ≡ some sink
  unfolding reconcile_sink_video_packetization
  settled caps stride p sink e t met = rw (e, t, met, (nat_eq_iff stride stride).1 refl) refl

  -- Where the sink's packets are reconciled with the caps, the sink is left with the line that the caps
  -- ask for; it is left alone if that was its line before, and to do it again changes nothing.
  pub reconcile_sink_video_packetization-matches :
      (sink after : SinkProperties) (caps : Option Structure)
      → reconcile_sink_video_packetization g sink caps ≡ some after
      → (stride : ℕ) × (video_target_stride g caps ≡ some stride)
        × (video_configured_stride after.payload_size after.packets_per_line ≡ stride)
        × ((after ≡ sink)
            ⊎ (video_configured_stride sink.payload_size sink.packets_per_line ≢ stride))
        × (reconcile_sink_video_packetization g after caps ≡ some after)
  unfolding reconcile_sink_video_packetization
  reconcile_sink_video_packetization-matches sink after caps h =
      elim (Option-cases (video_from_caps g caps default_max_video_rtp_payload)) [
        | inl e ↦ absurd (ground (arith, e))
        | inr (p, e) ↦
            let (stride, t, c) =
              video_from_caps-IsCut caps default_max_video_rtp_payload p (omega arith) e in
            elim (Bool-cases
              (nat_eq (video_configured_stride sink.payload_size sink.packets_per_line) stride)) [
                | inl q ↦
                    let unmoved : after ≡ sink = ground (arith, e, t, q) in
                    let met = (nat_eq_iff _ stride).0 q in
                    (
                      stride,
                      t,
                      rw unmoved met,
                      inl unmoved,
                      rw unmoved (settled caps stride p sink e t met),
                    )
                | inr q ↦
                    let moved : after ≡ set_on p = ground (arith, e, t, q) in
                    let met =
                      IsCut-configured stride default_max_video_rtp_payload p (omega arith) c in
                    (
                      stride,
                      t,
                      rw moved met,
                      inr (λ k. absurd (ground (arith, q, k))),
                      rw moved (settled caps stride p (set_on p) e t met),
                    )
              ]
      ]
