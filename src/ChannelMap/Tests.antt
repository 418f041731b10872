-- ===== src/ChannelMap/Tests.antt =====
-- Two stereo inputs and one stereo output.
use nvnmos.Common.{
  nat_Eq, text_Eq, text_eq, Text, codes, ℕ, ◌<◌, ◌≡◌, refl, ◌↔◌, inr, none, some, List, [], ◌∷◌,
  arith, if◌then◌else◌,
}
use nvnmos.ChannelMap.Topology.{
  from_snapshots, position, input_bus_index, SinkPadSnapshot, SrcPadSnapshot, FrozenTopology,
}
use nvnmos.ChannelMap.Topology.Bus.{sum, input_bus_index_apart}
use nvnmos.ChannelMap.Validation.{validate_active_map_for_output, ActiveMapRoute}
use nvnmos.ChannelMap.Validation.Valid.{validate_active_map_for_output_iff, IsActiveMap}
use nvnmos.ChannelMap.Matrix.{build_output_mix_matrix, Gain, silent, unity}
use nvnmos.ChannelMap.Matrix.Cells.{cell, routed, build_output_mix_matrix-cell}
use nvnmos.Wrapper.{ActiveMapEntry}

abbrev pad : Text → ℕ → SinkPadSnapshot
pad id channels = record {
  receiver_name = codes "r";
  input_id = id;
  label = [];
  description = [];
  negotiated_channels = channels;
}

abbrev sinks : List SinkPadSnapshot
sinks = pad (codes "a") 2 ∷ pad (codes "b") 2 ∷ []

abbrev srcs : List SrcPadSnapshot
srcs =
    record {
      sender_name = codes "s";
      output_id = codes "o";
      label = [];
      description = [];
      negotiated_channels = 2;
      active_map = none;
    }
    ∷ []

abbrev input_ids : List Text
input_ids = codes "a" ∷ codes "b" ∷ []

abbrev output_ids : List Text
output_ids = codes "o" ∷ []

abbrev topology : FrozenTopology
topology = from_snapshots sinks srcs input_ids output_ids

abbrev one : ℕ
one = 1

abbrev routes : List ActiveMapRoute
routes =
    record { output_channel = 0; input_id = codes "b"; input_channel = 1 }
    ∷ record { output_channel = 1; input_id = codes "a"; input_channel = 0 }
    ∷ []

input_bus_index_apart_example :
    (codes "b" ≡ codes "b") × (one ≡ one) × (3 < topology.input_bus_channels)
unfolding input_bus_index from_snapshots text_eq sum
input_bus_index_apart_example =
    input_bus_index_apart sinks srcs input_ids output_ids (omega arith) (codes "b") (codes "b") 1 1
      3 refl refl

validate_active_map_for_output_iff_example :
    (validate_active_map_for_output topology 2 routes ≡ none) ↔ IsActiveMap topology 2 routes
validate_active_map_for_output_iff_example = validate_active_map_for_output_iff topology 2 routes

build_output_mix_matrix-cell_example :
    (m : List (List Gain)) × (build_output_mix_matrix topology 2 routes ≡ inr m)
    × ((i j : ℕ)
        → i < 2
        → j < topology.input_bus_channels
        → cell m i j ≡ some (if routed topology routes i j then unity else silent))
unfolding validate_active_map_for_output from_snapshots text_eq sum position
build_output_mix_matrix-cell_example =
    build_output_mix_matrix-cell sinks srcs input_ids output_ids 2 routes (omega arith) refl

abbrev entries : List ActiveMapEntry
entries =
    record { input_id = some (codes "b"); input_channel = some 1 }
    ∷ record { input_id = some (codes "a"); input_channel = some 0 }
    ∷ []
