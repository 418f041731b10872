-- ===== src/Packets/Audio.antt =====
-- The packets of an audio stream: `audio_from_caps` of
-- rust/gst-nmos-rs/src/nvdsudp/packetization.rs.
use nvnmos.Common.{
  nat_Eq, text_Eq, text_eq, Text, codes, ℕ, zero, suc, ◌+◌, ◌-◌, ◌*◌, ◌/◌, ◌%◌, ◌^◌, ◌≤◌, ◌<◌, ◌≡◌,
  refl, sym, subst, ◌⊎◌, inl, inr, false, ◌||◌, some, arith, ltb, nat_eq, if◌then◌else◌, Bool-cases,
}
use nvnmos.FlowDef.Json.{pos}
use nvnmos.FlowDef.Caps.{GstLib}
use nvnmos.Packets.{
  audio_header_size, default_audio_buffer_ns, checked_mul, to_u32, audio_sample_bytes, audio_sizes,
  unsigned_field, audio_numerator, audio_from_caps, AudioPacketization,
}
use native.Mathlib.Nat.{div-le_of_le-mul, mul-div-le, lt-mul-div-succ, mul_comm}

-- The size of a packet is the nearest number of whole bytes, and as many packets as come nearest to 16
-- milliseconds are taken together, if not one.
pub record IsRounded (numerator ptime_ns : ℕ) (p : AudioPacketization) : Type 0 where
  pub not_above : p.src_payload_size * 1000000000 ≤ numerator + 500000000
  pub not_below : numerator < p.src_payload_size * 1000000000 + 500000000
  pub some_bytes : 0 < p.src_payload_size
  pub headed : p.sink_payload_size ≡ p.src_payload_size + audio_header_size
  pub multiple :
      ((p.payload_multiple ≡ 1) × (default_audio_buffer_ns + ptime_ns / 2 < ptime_ns))
      ⊎ ((1 ≤ p.payload_multiple)
          × (ptime_ns * p.payload_multiple ≤ default_audio_buffer_ns + ptime_ns / 2)
          × (default_audio_buffer_ns + ptime_ns / 2 < ptime_ns * (p.payload_multiple + 1)))

-- The number of packets is far below 32 bits.
multiple_small :
    (ptime_ns : ℕ) → 0 < ptime_ns → (default_audio_buffer_ns + ptime_ns / 2) / ptime_ns ≤ 16000001
multiple_small ptime_ns h = div-le_of_le-mul ptime_ns (ground (arith, h))

multiple_rounded :
    (ptime_ns m : ℕ)
    → 0 < ptime_ns
    → m ≡ (default_audio_buffer_ns + ptime_ns / 2) / ptime_ns
    → (((if ltb m 1 then 1 else m) % 2 ^ 32 ≡ 1)
        × (default_audio_buffer_ns + ptime_ns / 2 < ptime_ns))
      ⊎ ((1 ≤ (if ltb m 1 then 1 else m) % 2 ^ 32)
          × (ptime_ns * ((if ltb m 1 then 1 else m) % 2 ^ 32)
              ≤ default_audio_buffer_ns + ptime_ns / 2)
          × (default_audio_buffer_ns + ptime_ns / 2
              < ptime_ns * ((if ltb m 1 then 1 else m) % 2 ^ 32 + 1)))
multiple_rounded ptime_ns zero h e =
    inl (refl, ground (arith, lt-mul-div-succ (default_audio_buffer_ns + ptime_ns / 2) h, e))
multiple_rounded ptime_ns (suc m) h e =
    let small : suc m % 2 ^ 32 ≡ suc m = ground (arith, e, multiple_small ptime_ns h) in
    let value : (if ltb (suc m) 1 then 1 else suc m) % 2 ^ 32 ≡ suc m = ground (arith, small) in
    inr (
      rw value (
        omega arith,
        rw e (mul-div-le (default_audio_buffer_ns + ptime_ns / 2) ptime_ns),
        rw e (lt-mul-div-succ (default_audio_buffer_ns + ptime_ns / 2) h),
      ))

abbrev sizes : ℕ → ℕ → AudioPacketization
sizes src multiple = record {
  sink_payload_size = (src + audio_header_size) % 2 ^ 32;
  src_payload_size = src;
  payload_multiple = (if ltb multiple 1 then 1 else multiple) % 2 ^ 32;
}

audio_sizes-IsRounded :
    (ptime_ns numerator : ℕ) (p : AudioPacketization)
    → 0 < ptime_ns
    → numerator + 500000000 < (2 ^ 32 - audio_header_size) * 1000000000
    → audio_sizes ptime_ns numerator ≡ some p
    → IsRounded numerator ptime_ns p
unfolding audio_sizes
audio_sizes-IsRounded ptime_ns numerator p h k e =
    let src = (numerator + 500000000) % 2 ^ 64 / 1000000000 % 2 ^ 32 in
    let whole : src ≡ (numerator + 500000000) / 1000000000 = ground (arith, k) in
    elim (Bool-cases (nat_eq src 0)) [
      | inl q ↦ absurd (ground (arith, e, q))
      | inr q ↦
          let n = (default_audio_buffer_ns + ptime_ns / 2) / ptime_ns in
          let same : sizes src n ≡ p = ground (arith, e, q) in
          subst (IsRounded numerator ptime_ns) same (record {
            not_above = rw whole (omega arith);
            not_below = rw whole (omega arith);
            some_bytes = ground (arith, q);
            headed = rw whole (ground (arith, k));
            multiple = multiple_rounded ptime_ns n h refl;
          })
    ]

le-mul_pos : (a b : ℕ) → 0 < b → a ≤ a * b
le-mul_pos a zero h = absurd (ground arith)
le-mul_pos a (suc b) h = rw (sym (mul_comm (suc b) a)) (omega arith)

checked_mul-fits : (bits a b : ℕ) → a * b < 2 ^ bits → checked_mul bits a b ≡ some (a * b)
unfolding checked_mul
checked_mul-fits bits a b h = ground (arith, h)

-- A size that rounds to some bytes is given.
audio_sizes-some :
    (ptime_ns numerator : ℕ)
    → 500000000 ≤ numerator
    → numerator + 500000000 < (2 ^ 32 - audio_header_size) * 1000000000
    → (p : AudioPacketization) × (audio_sizes ptime_ns numerator ≡ some p)
unfolding audio_sizes
audio_sizes-some ptime_ns numerator h k =
    let src = (numerator + 500000000) % 2 ^ 64 / 1000000000 % 2 ^ 32 in
    let some_bytes : nat_eq src 0 ≡ false = ground (arith, h, k) in
    (sizes src ((default_audio_buffer_ns + ptime_ns / 2) / ptime_ns), rw some_bytes refl)

-- The bytes of a sample of each format.
pub data IsSample : Text → ℕ → Type 0 where
  wide : IsSample (codes "S24BE") 3
  narrow : IsSample (codes "S16BE") 2

audio_sample_bytes-IsSample :
    (format : Text) (bytes : ℕ) → IsSample format bytes → audio_sample_bytes format ≡ some bytes
unfolding audio_sample_bytes text_eq
audio_sample_bytes-IsSample format bytes wide = refl
audio_sample_bytes-IsSample format bytes narrow = refl

IsSample-pos : (format : Text) (bytes : ℕ) → IsSample format bytes → 0 < bytes
IsSample-pos format bytes wide = omega arith
IsSample-pos format bytes narrow = omega arith

module _ (g : GstLib) where
  open g use {Structure, get_string, get_i32}

  field_read :
      (s : Structure) (k : Text) (n : ℕ)
      → get_i32 s k ≡ some (pos n)
      → unsigned_field g s k ≡ some n
  unfolding unsigned_field to_u32
  field_read s k n h = rw h refl

  audio_numerator-product :
      (s : Structure) (format : Text) (rate channels bytes ptime_ns : ℕ)
      → get_string s (codes "format") ≡ some format
      → get_i32 s (codes "rate") ≡ some (pos rate)
      → get_i32 s (codes "channels") ≡ some (pos channels)
      → IsSample format bytes
      → 0 < rate
      → 0 < channels
      → rate * ptime_ns * bytes * channels < 2 ^ 64
      → audio_numerator g (some s) ptime_ns ≡ some (rate * ptime_ns * bytes * channels)
  unfolding audio_numerator
  audio_numerator-product s format rate channels bytes ptime_ns f r c b r0 c0 k =
      let known = field_read s (codes "rate") rate r in
      let counted = field_read s (codes "channels") channels c in
      let sized = audio_sample_bytes-IsSample format bytes b in
      let whole = rate * ptime_ns * bytes in
      let part = le-mul_pos whole channels c0 in
      let less = le-mul_pos (rate * ptime_ns) bytes (IsSample-pos format bytes b) in
      let x : checked_mul 64 rate ptime_ns ≡ some (rate * ptime_ns) =
        checked_mul-fits 64 rate ptime_ns (ground (arith, k, part, less)) in
      let y : checked_mul 64 (rate * ptime_ns) bytes ≡ some whole =
        checked_mul-fits 64 (rate * ptime_ns) bytes (ground (arith, k, part)) in
      let z : checked_mul 64 whole channels ≡ some (whole * channels) =
        checked_mul-fits 64 whole channels k in
      let positive : nat_eq rate 0 || nat_eq channels 0 ≡ false = ground (arith, r0, c0) in
      ground (arith, f, known, counted, positive, sized, x, y, z)

  -- An audio stream of a known format, with a rate and channels and packets that take some time, whose
  -- packets have at least half a byte and whose size stays below 32 bits with the header, gets its
  -- sizes: that of a packet is the nearest number of whole bytes to the product of rate, packet time,
  -- sample size and channels, in thousand-millionths, and the packets that are taken together come
  -- nearest to 16 milliseconds, or one packet is longer than about that.
  pub audio_from_caps-IsRounded :
      (s : Structure) (format : Text) (rate channels bytes ptime_ns : ℕ)
      → get_string s (codes "format") ≡ some format
      → get_i32 s (codes "rate") ≡ some (pos rate)
      → get_i32 s (codes "channels") ≡ some (pos channels)
      → IsSample format bytes
      → 0 < rate
      → 0 < channels
      → 0 < ptime_ns
      → 500000000 ≤ rate * ptime_ns * bytes * channels
      → rate * ptime_ns * bytes * channels + 500000000 < (2 ^ 32 - audio_header_size) * 1000000000
      → (p : AudioPacketization) × (audio_from_caps g (some s) ptime_ns ≡ some p)
        × IsRounded (rate * ptime_ns * bytes * channels) ptime_ns p
  unfolding audio_from_caps
  audio_from_caps-IsRounded s format rate channels bytes ptime_ns f r c b r0 c0 t0 least k =
      let product = rate * ptime_ns * bytes * channels in
      let n : audio_numerator g (some s) ptime_ns ≡ some product =
        audio_numerator-product s format rate channels bytes ptime_ns f r c b r0 c0 (omega arith) in
      let timed : nat_eq ptime_ns 0 ≡ false = ground (arith, t0) in
      let (p, e) = audio_sizes-some ptime_ns product least k in
      (p, rw (timed, n) e, audio_sizes-IsRounded ptime_ns product p t0 k e)
