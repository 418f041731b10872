-- ===== src/ChannelMap/Topology/Bus.antt =====
-- The input channels stand apart on the input bus.
use nvnmos.Common.{
  ◌==◌, ==_iff, nat_Eq, text_Eq, Text, ℕ, zero, suc, ◌+◌, ◌^◌, ◌<◌, ◌≡◌, refl, sym, ap, ◌∙◌, inl,
  inr, some, List, [], ◌∷◌, map, arith, Bool-cases, Option-cases, get_elem?,
}
use nvnmos.ChannelMap.Topology.{
  add_u32, bus_offsets, bus_end, from_snapshots, position, input_bus_index, SinkPadSnapshot,
  SrcPadSnapshot, FrozenTopology,
}

unfoldable pub sum : List ℕ → ℕ
sum [] = 0
sum (n ∷ ns) = n + sum ns

-- The channels of the pads before the one at a position.
unfoldable pub before : List ℕ → ℕ → ℕ
before [] i = 0
before (n ∷ ns) zero = 0
before (n ∷ ns) (suc i) = n + before ns i

add_small : (a b : ℕ) → a + b < 2 ^ 32 → add_u32 a b ≡ a + b
add_small a b h = omega arith

bus_end-sum : (o : ℕ) (ns : List ℕ) → o + sum ns < 2 ^ 32 → bus_end o ns ≡ o + sum ns
unfolding bus_end sum
bus_end-sum o [] h = omega arith
bus_end-sum o (n ∷ ns) h =
    rw (add_small o n (omega arith)) (bus_end-sum (o + n) ns (omega arith) ∙ omega arith)

get-bus_offsets :
    (o : ℕ) (ns : List ℕ) (i n : ℕ)
    → o + sum ns < 2 ^ 32
    → get_elem? ns i ≡ some n
    → get_elem? (bus_offsets o ns) i ≡ some (o + before ns i)
unfolding bus_offsets sum before
get-bus_offsets o [] i n h q = absurd (ground arith)
get-bus_offsets o (m ∷ ns) zero n h q = ap some (omega arith)
get-bus_offsets o (m ∷ ns) (suc i) n h q =
    rw (add_small o m (omega arith))
      (get-bus_offsets (o + m) ns i n (omega arith) q ∙ ap some (omega arith))

before-sum : (ns : List ℕ) (i n c : ℕ) → get_elem? ns i ≡ some n → c < n → before ns i + c < sum ns
unfolding before sum
before-sum [] i n c q l = absurd (ground arith)
before-sum (m ∷ ns) zero n c q l = ground arith
before-sum (m ∷ ns) (suc i) n c q l = ground (arith, before-sum ns i n c q l)

-- Slots of different pads differ.
before-injective :
    (ns : List ℕ) (i j n m c d : ℕ)
    → get_elem? ns i ≡ some n
    → get_elem? ns j ≡ some m
    → c < n
    → d < m
    → before ns i + c ≡ before ns j + d
    → (i ≡ j) × (c ≡ d)
unfolding before
before-injective [] i j n m c d p q l k e = absurd (ground arith)
before-injective (x ∷ ns) zero zero n m c d p q l k e = (refl, omega arith)
before-injective (x ∷ ns) zero (suc j) n m c d p q l k e = absurd (ground arith)
before-injective (x ∷ ns) (suc i) zero n m c d p q l k e = absurd (ground arith)
before-injective (x ∷ ns) (suc i) (suc j) n m c d p q l k e =
    let r = before-injective ns i j n m c d p q l k (omega arith) in (ap suc r.0, r.1)

pub position-get :
    (id : Text) (ids : List Text) (i : ℕ) → position id ids ≡ some i → get_elem? ids i ≡ some id
unfolding position
position-get id [] i h = absurd (ground arith)
position-get id (x ∷ ids) i h = elim (Bool-cases (x == id)) [
  | inl same ↦ found i (ground (arith, ==_iff x id))
  | inr other ↦ elim (Option-cases (position id ids)) [
    | inl q ↦ absurd (ground (arith, q))
    | inr (j, q) ↦ later j (position-get id ids j q) i (ground arith)
  ]
]
  where
    found : (k : ℕ) → (x ≡ id) × (k ≡ 0) → get_elem? (x ∷ ids) k ≡ some id
    found zero (q, e) = ap some q
    found (suc k) (q, e) = absurd (omega arith)

    later :
        (j : ℕ) → get_elem? ids j ≡ some id → (k : ℕ) → k ≡ suc j → get_elem? (x ∷ ids) k ≡ some id
    later j q zero e = absurd (omega arith)
    later j q (suc k) e = let r : k ≡ j = omega arith in rw r q

module _ (sinks : List SinkPadSnapshot) (srcs : List SrcPadSnapshot)
    (input_ids output_ids : List Text)
    (bound : sum (map (λ (s : SinkPadSnapshot). s.negotiated_channels) sinks) < 2 ^ 32) where
  abbrev channels : List ℕ
  channels = map (λ (s : SinkPadSnapshot). s.negotiated_channels) sinks

  abbrev topology : FrozenTopology
  topology = from_snapshots sinks srcs input_ids output_ids

  -- A slot of the bus: the pad with the id, and a channel that the pad has.
  pub record IsSlot (id : Text) (channel slot : ℕ) : Type 0 where
    pub pad : ℕ
    pub width : ℕ
    pub named : position id input_ids ≡ some pad
    pub has : get_elem? channels pad ≡ some width
    pub within : channel < width
    pub stands : slot ≡ before channels pad + channel

  pub input_bus_index-IsSlot :
      (id : Text) (channel slot : ℕ)
      → input_bus_index topology id channel ≡ some slot
      → IsSlot id channel slot
  unfolding input_bus_index from_snapshots
  input_bus_index-IsSlot id channel slot h = elim (Option-cases (position id input_ids)) [
    | inl q ↦ absurd (ground (arith, q))
    | inr (i, q) ↦ elim (Option-cases (get_elem? channels i)) [
      | inl w ↦ absurd (ground (arith, q, w))
      | inr (n, w) ↦
          let o = get-bus_offsets 0 channels i n (omega (arith, bound)) w in
          record {
            pad = i;
            width = n;
            named = q;
            has = w;
            within = ground (arith, q, w, o, h);
            stands = ground (arith, q, w, o, h, before-sum channels i n channel w, bound);
          }
    ]
  ]

  bus_channels-sum : topology.input_bus_channels ≡ sum channels
  bus_channels-sum =
      unfold from_snapshots in bus_end-sum 0 channels (omega (arith, bound)) ∙ omega arith

  -- A channel that a pad has stands on the bus.
  pub IsSlot-input_bus_index :
      (id : Text) (channel pad width : ℕ)
      → position id input_ids ≡ some pad
      → get_elem? channels pad ≡ some width
      → channel < width
      → (slot : ℕ) × (input_bus_index topology id channel ≡ some slot)
        × (slot < topology.input_bus_channels)
  unfolding input_bus_index from_snapshots
  IsSlot-input_bus_index id channel pad width q w l =
      let o = get-bus_offsets 0 channels pad width (omega (arith, bound)) w in
      let b = before-sum channels pad width channel w l in
      (before channels pad + channel, ground (arith, q, w, o, l, b, bound), rw bus_channels-sum b)

  -- Two input channels never share a slot of the input bus, and every slot lies on the bus, as long
  -- as the channels of all pads are fewer than 2 ^ 32.
  pub input_bus_index_apart :
      (id id' : Text) (channel channel' slot : ℕ)
      → input_bus_index topology id channel ≡ some slot
      → input_bus_index topology id' channel' ≡ some slot
      → (id ≡ id') × (channel ≡ channel') × (slot < topology.input_bus_channels)
  input_bus_index_apart id id' channel channel' slot h h' =
      let a = input_bus_index-IsSlot id channel slot h in
      let b = input_bus_index-IsSlot id' channel' slot h' in
      let r =
        before-injective channels a.pad b.pad a.width b.width channel channel' a.has b.has a.within
          b.within (sym a.stands ∙ b.stands) in
      (
        same_id a.pad b.pad (position-get id input_ids a.pad a.named)
            (position-get id' input_ids b.pad b.named) r.0,
        r.1,
        rw (a.stands, bus_channels-sum) (before-sum channels a.pad a.width channel a.has a.within),
      )
    where
      same_id :
          (i j : ℕ)
          → get_elem? input_ids i ≡ some id
          → get_elem? input_ids j ≡ some id'
          → i ≡ j
          → id ≡ id'
      same_id i j p q e = cc
