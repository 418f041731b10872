-- ===== src/Packets/Lines.antt =====
-- How many packets a line is split into: `choose_packets_per_line` of
-- rust/gst-nmos-rs/src/nvdsudp/packetization.rs.
use nvnmos.Common.{
  nat_Eq, text_Eq, ℕ, zero, suc, ◌+◌, ◌-◌, ◌*◌, ◌/◌, ◌%◌, ◌≤◌, ◌<◌, ◌≡◌, refl, sym, ap, ◌∙◌, subst,
  ◌≢◌, ◌↔◌, ◌⊎◌, inl, inr, true, false, false≢true, none, some, arith, ltb, nat_eq, nat_eq_iff,
  Bool-cases,
}
use nvnmos.Packets.{
  min_src_payload_per_packet, div_ceil, is_multiple_of, first_divisor, choose_packets_per_line,
}
use native.Mathlib.Nat.{
  div-add-mod', mul-le-mul_right, div-le_of_le-mul, div-lt_iff_lt-mul, mul-mod_left, mul_comm,
}

-- The packets are whole, no larger than the limit, and no smaller than the least size.
pub record SplitsLine (stride max_rtp_payload packets : ℕ) : Type 0 where
  pub whole : is_multiple_of stride packets ≡ true
  pub at_most : stride ≤ packets * max_rtp_payload
  pub at_least : packets * min_src_payload_per_packet ≤ stride

-- A number that has the property, and the least that does.
pub record IsLeast (P : ℕ → Type 0) (n : ℕ) : Type 0 where
  pub holds : P n
  pub least : (m : ℕ) → P m → n ≤ m

div_ceil_iff : (a b m : ℕ) → 0 < b → (div_ceil a b ≤ m) ↔ (a ≤ m * b)
unfolding div_ceil
div_ceil_iff a b m h = elim (Bool-cases (nat_eq (a % b) 0)) [
  | inl e ↦
      let exact : a / b * b ≡ a = ground (arith, e, div-add-mod' a b) in
      rw e (
        λ l. subst (λ x. x ≤ m * b) exact (mul-le-mul_right b l),
        λ l. div-le_of_le-mul b (rw (mul_comm b m) l),
      )
  | inr e ↦
      let uneven : a ≢ m * b = λ q. absurd (ground (arith, e, q, mul-mod_left m b)) in
      let below = div-lt_iff_lt-mul {k = b} {x = a} {y = m} h in
      rw e (λ l. ground (arith, below.0, l), λ l. ground (arith, below.1, l, uneven))
]

past :
    (stride ppl m : ℕ)
    → is_multiple_of stride ppl ≡ false
    → is_multiple_of stride m ≡ true
    → ppl ≤ m
    → suc ppl ≤ m
past stride ppl m e w a = elim (Bool-cases (nat_eq ppl m)) [
  | inl q ↦ absurd (false≢true (sym e ∙ ap (is_multiple_of stride) ((nat_eq_iff ppl m).0 q) ∙ w))
  | inr q ↦ ground (arith, q, a)
]

-- The search finds the first divisor of its range, if there is one.
first_divisor_finds :
    (stride ppl left : ℕ)
    → ((n : ℕ) × (first_divisor stride ppl left ≡ some n)
        × (is_multiple_of stride n ≡ true)
        × (ppl ≤ n)
        × (n < ppl + left)
        × ((m : ℕ) → ppl ≤ m → is_multiple_of stride m ≡ true → n ≤ m))
      ⊎ ((first_divisor stride ppl left ≡ none)
          × ((m : ℕ) → ppl ≤ m → m < ppl + left → is_multiple_of stride m ≡ false))
unfolding first_divisor
first_divisor_finds stride ppl zero = inr (refl, λ m a b. absurd (omega arith))
first_divisor_finds stride ppl (suc left) = elim (Bool-cases (is_multiple_of stride ppl)) [
  | inl e ↦ inl (ppl, rw e refl, e, omega arith, omega arith, λ m a w. a)
  | inr e ↦ elim (first_divisor_finds stride (suc ppl) left) [
    | inl (n, f, w, a, b, l) ↦
        inl (n, rw e f, w, omega arith, omega arith, λ m c w. l m (past stride ppl m e w c) w)
    | inr (f, l) ↦ inr (
      rw e f,
      λ m a b. elim (Bool-cases (is_multiple_of stride m)) [
        | inl w ↦ l m (past stride ppl m e w a) (omega arith)
        | inr w ↦ w
      ],
    )
  ]
]

splits_iff :
    (stride max_rtp_payload n : ℕ)
    → 0 < max_rtp_payload
    → SplitsLine stride max_rtp_payload n ↔ (
        (is_multiple_of stride n ≡ true)
        × (div_ceil stride max_rtp_payload ≤ n)
        × (n ≤ stride / min_src_payload_per_packet))
splits_iff stride max_rtp_payload n h =
    let up = div_ceil_iff stride max_rtp_payload n h in
    (
      λ s. (s.whole, up.1 (s.at_most), ground (arith, s.at_least)),
      λ (w, a, b). record { whole = w; at_most = up.0 a; at_least = ground (arith, b) },
    )

-- The choice is the least number of packets that splits the line; where there is no choice, no
-- number of packets does.
pub choose_packets_per_line_decides :
    (stride max_rtp_payload : ℕ)
    → 0 < max_rtp_payload
    → ((n : ℕ) × (choose_packets_per_line stride max_rtp_payload ≡ some n)
        × IsLeast (SplitsLine stride max_rtp_payload) n)
      ⊎ ((choose_packets_per_line stride max_rtp_payload ≡ none)
          × ((n : ℕ) → ¬ SplitsLine stride max_rtp_payload n))
unfolding choose_packets_per_line
choose_packets_per_line_decides stride max_rtp_payload h =
    let low = div_ceil stride max_rtp_payload in
    let high = stride / min_src_payload_per_packet in
    let positive : nat_eq max_rtp_payload 0 ≡ false = ground (arith, h) in
    elim (Bool-cases (ltb high low)) [
      | inl e ↦ inr (
        rw (positive, e) refl,
        λ n s.
            let (w, c, d) = (splits_iff stride max_rtp_payload n h).0 s in
            absurd (ground (arith, e, c, d)),
      )
      | inr e ↦ elim (first_divisor_finds stride low (high + 1 - low)) [
        | inl (n, f, w, a, b, l) ↦ inl (
          n,
          rw (positive, e) f,
          record {
            holds = (splits_iff stride max_rtp_payload n h).1 (w, a, ground (arith, b, e));
            least = λ m s. let (w, c, d) = (splits_iff stride max_rtp_payload m h).0 s in l m c w;
          },
        )
        | inr (f, l) ↦ inr (
          rw (positive, e) f,
          λ n s.
              let (w, c, d) = (splits_iff stride max_rtp_payload n h).0 s in
              absurd (false≢true (sym (l n c (ground (arith, e, d))) ∙ w)),
        )
      ]
    ]
