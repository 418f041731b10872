-- ===== src/ChannelMap/Topology.antt =====
-- `FrozenTopology` of rust/gst-nmos-rs/src/channel_mapping/types.rs: where each input channel stands
-- on the input bus.
pub mod Bus
use nvnmos.Common.{
  ◌==◌, nat_Eq, text_Eq, Text, ℕ, suc, ◌+◌, ◌%◌, ◌^◌, true, false, Option, none, some, List, [],
  ◌∷◌, map, ltb, if◌then◌else◌, get_elem?,
}

pub record SinkPadSnapshot : Type 0 where
  pub receiver_name : Text
  pub input_id : Text
  pub label : Text
  pub description : Text
  pub negotiated_channels : ℕ

-- The `active-map` property is a GStreamer structure, which `from_snapshots` does not read: a number.
pub record SrcPadSnapshot : Type 0 where
  pub sender_name : Text
  pub output_id : Text
  pub label : Text
  pub description : Text
  pub negotiated_channels : ℕ
  pub active_map : Option ℕ

pub record FrozenTopology : Type 0 where
  pub input_ids : List Text
  pub output_ids : List Text
  pub input_channels : List ℕ
  pub output_channels : List ℕ
  pub input_bus_offsets : List ℕ
  pub input_bus_channels : ℕ

-- `+` on `u32`s, which wraps in a release build.
abbrev pub add_u32 : ℕ → ℕ → ℕ
add_u32 a b = (a + b) % 2 ^ 32

-- The closure over `offset`: the offsets that it returns, and the last one.
unfoldable pub bus_offsets : ℕ → List ℕ → List ℕ
bus_offsets offset [] = []
bus_offsets offset (n ∷ ns) = offset ∷ bus_offsets (add_u32 offset n) ns

unfoldable pub bus_end : ℕ → List ℕ → ℕ
bus_end offset [] = offset
bus_end offset (n ∷ ns) = bus_end (add_u32 offset n) ns

-- `FrozenTopology::from_snapshots`
unfoldable pub from_snapshots :
    List SinkPadSnapshot → List SrcPadSnapshot → List Text → List Text → FrozenTopology
unfolding bus_offsets bus_end
from_snapshots sinks srcs input_ids output_ids =
    let input_channels = map (λ (s : SinkPadSnapshot). s.negotiated_channels) sinks in
    record {
      input_ids = input_ids;
      output_ids = output_ids;
      input_channels = input_channels;
      output_channels = map (λ (s : SrcPadSnapshot). s.negotiated_channels) srcs;
      input_bus_offsets = bus_offsets 0 input_channels;
      input_bus_channels = bus_end 0 input_channels;
    }

-- `iter().position(|id| id == wanted)`
unfoldable pub position : Text → List Text → Option ℕ
position wanted [] = none
position wanted (id ∷ ids) = elim (id == wanted) [
  | true ↦ some 0
  | false ↦ elim (position wanted ids) [ none ↦ none | some i ↦ some (suc i) ]
]

-- `FrozenTopology::input_bus_index`
unfoldable pub input_bus_index : FrozenTopology → Text → ℕ → Option ℕ
unfolding position
input_bus_index t id channel = elim (position id t.input_ids) [
  | none ↦ none
  | some i ↦ elim (get_elem? t.input_bus_offsets i) [
    | none ↦ none
    | some offset ↦ elim (get_elem? t.input_channels i) [
      | none ↦ none
      | some channels ↦ if ltb channel channels then some (add_u32 offset channel) else none
    ]
  ]
]
