-- ===== src/ChannelMap/Matrix/Cells.antt =====
-- What the output matrix of rust/gst-nmos-rs/src/channel_mapping/matrix.rs mixes.
use nvnmos.Common.{
  nat_Eq, text_Eq, Text, ℕ, zero, suc, ◌^◌, ◌<◌, ◌≡◌, refl, ◌∙◌, inl, inr, Bool, ◌&&◌, Option, none,
  some, List, [], ◌∷◌, map, arith, nat_eq, if◌then◌else◌, Bool-cases, is_some_and, get_elem?, set,
  any, get_elem?-replicate,
}
use nvnmos.ChannelMap.Topology.{
  from_snapshots, position, input_bus_index, SinkPadSnapshot, SrcPadSnapshot, FrozenTopology,
}
use nvnmos.ChannelMap.Topology.Bus.{sum, IsSlot-input_bus_index}
use nvnmos.ChannelMap.Validation.{validate_active_map_for_output, ActiveMapRoute}
use nvnmos.ChannelMap.Validation.Valid.{
  validate_active_map_for_output_iff, IsRoute, IsActiveMap, no_route, add_route,
}
use nvnmos.ChannelMap.Matrix.{
  mark, blank, mark_routes, build_output_mix_matrix, Gain, silent, unity,
}

-- The coefficient at a row and a column.
unfoldable pub cell : List (List Gain) → ℕ → ℕ → Option Gain
cell [] row column = none
cell (r ∷ rs) zero column = get_elem? r column
cell (r ∷ rs) (suc row) column = cell rs row column

nat_eq-suc : (a b : ℕ) → nat_eq (suc a) (suc b) ≡ nat_eq a b
nat_eq-suc a b = ground arith

get_elem?-set :
    (r : List Gain) (i j : ℕ) (g : Gain)
    → get_elem? r i ≡ some g
    → get_elem? (set r i unity) j ≡ (if nat_eq i j then some unity else get_elem? r j)
get_elem?-set [] i j g h = absurd (ground arith)
get_elem?-set (x ∷ r) zero zero g h = refl
get_elem?-set (x ∷ r) zero (suc j) g h = ground arith
get_elem?-set (x ∷ r) (suc i) zero g h = ground arith
get_elem?-set (x ∷ r) (suc i) (suc j) g h = rw (nat_eq-suc i j) (get_elem?-set r i j g h)

cell-mark :
    (m : List (List Gain)) (i j row column : ℕ) (g : Gain)
    → cell m i j ≡ some g
    → cell (mark m i j) row column
      ≡ (if nat_eq i row && nat_eq j column then some unity else cell m row column)
unfolding cell mark
cell-mark [] i j row column g h = absurd (ground arith)
cell-mark (r ∷ rs) zero j zero column g h = get_elem?-set r j column g h
cell-mark (r ∷ rs) zero j (suc row) column g h = ground arith
cell-mark (r ∷ rs) (suc i) j zero column g h = ground arith
cell-mark (r ∷ rs) (suc i) j (suc row) column g h =
    rw (nat_eq-suc i row) (cell-mark rs i j row column g h)

-- The routes lead from the slot to the output channel.
unfoldable pub routed : FrozenTopology → List ActiveMapRoute → ℕ → ℕ → Bool
routed t routes output slot =
    any
      (λ (r : ActiveMapRoute).
        nat_eq r.output_channel output
        && is_some_and (input_bus_index t r.input_id r.input_channel) (λ b. nat_eq b slot))
      routes

cell-blank :
    (rows columns i j : ℕ) → i < rows → j < columns → cell (blank rows columns) i j ≡ some silent
unfolding cell
cell-blank zero columns i j h k = absurd (omega arith)
cell-blank (suc rows) columns zero j h k = get_elem?-replicate columns j silent k
cell-blank (suc rows) columns (suc i) j h k = cell-blank rows columns i j (omega arith) k

module _ (t : FrozenTopology) (output_channels : ℕ)
    (on_bus : (r : ActiveMapRoute)
      → IsRoute t output_channels r
      → (slot : ℕ) × (input_bus_index t r.input_id r.input_channel ≡ some slot)
        × (slot < t.input_bus_channels)) where
  -- Every cell of the matrix is there.
  abbrev IsFull : List (List Gain) → Type 0
  IsFull m =
      (i j : ℕ)
      → i < output_channels
      → j < t.input_bus_channels
      → (g : Gain) × (cell m i j ≡ some g)

  mark-IsFull :
      (m : List (List Gain)) (i j : ℕ)
      → i < output_channels
      → j < t.input_bus_channels
      → IsFull m
      → IsFull (mark m i j)
  mark-IsFull m i j k l f a b p q = elim (Bool-cases (nat_eq i a && nat_eq j b)) [
    | inl same ↦ (unity, cell-mark m i j a b (f i j k l).0 (f i j k l).1 ∙ rw same refl)
    | inr other ↦
        ((f a b p q).0, cell-mark m i j a b (f i j k l).0 (f i j k l).1 ∙ (rw other (f a b p q).1))
  ]

  -- The loop marks what the routes reach, and leaves the rest.
  abbrev Marks : List (List Gain) → List ActiveMapRoute → List (List Gain) → Type 0
  Marks m routes m' =
      (i j : ℕ)
      → i < output_channels
      → j < t.input_bus_channels
      → cell m' i j ≡ (if routed t routes i j then some unity else cell m i j)

  mark_routes-Marks :
      (m : List (List Gain)) (routes : List ActiveMapRoute)
      → IsFull m
      → IsActiveMap t output_channels routes
      → (m' : List (List Gain)) × (mark_routes t m routes ≡ inr m') × Marks m routes m'
  unfolding mark_routes routed
  mark_routes-Marks m _ f no_route = (m, refl, λ i j p q. refl)
  mark_routes-Marks m _ f (add_route r rs i d a) =
      let (slot, q, l) = on_bus r i in
      let (m', e, k) =
        mark_routes-Marks (mark m r.output_channel slot) rs
          (mark-IsFull m r.output_channel slot i.output l f) a in
      let c = f r.output_channel slot i.output l in
      (
        m',
        rw (q, mark_routes) e,
        λ x y p z. ground (arith, q, k x y p z, cell-mark m r.output_channel slot x y c.0 c.1),
      )

-- Whatever active map the validation accepts, the output matrix is built, and its coefficient at an
-- output channel and a bus slot is 1.0 exactly when a route leads from that slot to that channel, and
-- 0.0 otherwise, as long as the channels of all pads are fewer than 2 ^ 32.
pub build_output_mix_matrix-cell :
    (sinks : List SinkPadSnapshot) (srcs : List SrcPadSnapshot) (input_ids output_ids : List Text)
    (output_channels : ℕ) (routes : List ActiveMapRoute)
    → sum (map (λ (s : SinkPadSnapshot). s.negotiated_channels) sinks) < 2 ^ 32
    → validate_active_map_for_output
        (from_snapshots sinks srcs input_ids output_ids)
        output_channels
        routes
      ≡ none
    → let t = from_snapshots sinks srcs input_ids output_ids in
      (m : List (List Gain)) × (build_output_mix_matrix t output_channels routes ≡ inr m)
      × ((i j : ℕ)
          → i < output_channels
          → j < t.input_bus_channels
          → cell m i j ≡ some (if routed t routes i j then unity else silent))
unfolding build_output_mix_matrix
build_output_mix_matrix-cell sinks srcs input_ids output_ids output_channels routes bound valid =
    let t = from_snapshots sinks srcs input_ids output_ids in
    let (m, e, k) =
      mark_routes-Marks t output_channels
        (λ r i.
          IsSlot-input_bus_index sinks srcs input_ids output_ids bound r.input_id r.input_channel
            i.pad i.width (named r i) (has r i) i.within)
        (blank output_channels t.input_bus_channels) routes full
        ((validate_active_map_for_output_iff t output_channels routes).0 valid) in
    (
      m,
      rw (valid, build_output_mix_matrix) e,
      λ i j p q. ground (arith, k i j p q, cell-blank output_channels t.input_bus_channels i j p q),
    )
  where
    full :
        (i j : ℕ)
        → i < output_channels
        → j < (from_snapshots sinks srcs input_ids output_ids).input_bus_channels
        → (g : Gain) × (cell
              (blank output_channels
                (from_snapshots sinks srcs input_ids output_ids).input_bus_channels)
              i
              j
            ≡ some g)
    full i j p q = (
      silent,
      cell-blank output_channels (from_snapshots sinks srcs input_ids output_ids).input_bus_channels
          i j p q,
    )

    named :
        (r : ActiveMapRoute)
        (i : IsRoute (from_snapshots sinks srcs input_ids output_ids) output_channels r)
        → position r.input_id input_ids ≡ some i.pad
    named r i = unfold from_snapshots in i.named

    has :
        (r : ActiveMapRoute)
        (i : IsRoute (from_snapshots sinks srcs input_ids output_ids) output_channels r)
        → get_elem? (map (λ (s : SinkPadSnapshot). s.negotiated_channels) sinks) i.pad
          ≡ some i.width
    has r i = unfold from_snapshots in i.has
