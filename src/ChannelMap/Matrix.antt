-- ===== src/ChannelMap/Matrix.antt =====
-- The mixing matrices of rust/gst-nmos-rs/src/channel_mapping/matrix.rs. A coefficient is 0.0 or 1.0.
pub mod Cells
use nvnmos.Common.{
  nat_Eq, text_Eq, ℕ, zero, suc, ◌+◌, ◌⊎◌, inl, inr, none, some, List, [], ◌∷◌, set, replicate,
}
use nvnmos.ChannelMap.Topology.{input_bus_index, FrozenTopology}
use nvnmos.ChannelMap.Validation.{
  validate_active_map_for_output, ActiveMapRoute, ActiveMapValidationError, unknown_input_id,
}

pub data Gain : Type 0 where
  silent unity : Gain

-- `matrix[row][column] = 1.0`
unfoldable pub mark : List (List Gain) → ℕ → ℕ → List (List Gain)
mark [] row column = []
mark (r ∷ rs) zero column = set r column unity ∷ rs
mark (r ∷ rs) (suc row) column = r ∷ mark rs row column

-- `vec![vec![0.0; columns]; rows]`
abbrev pub blank : ℕ → ℕ → List (List Gain)
blank rows columns = replicate rows (replicate columns silent)

-- The loop of `build_input_bus_mix_matrix`, from one channel on.
unfoldable pub mark_bus : List (List Gain) → ℕ → ℕ → ℕ → List (List Gain)
unfolding mark
mark_bus matrix offset ch zero = matrix
mark_bus matrix offset ch (suc left) = mark_bus (mark matrix (offset + ch) ch) offset (ch + 1) left

-- `build_input_bus_mix_matrix`
unfoldable pub build_input_bus_mix_matrix : ℕ → ℕ → ℕ → List (List Gain)
unfolding mark_bus
build_input_bus_mix_matrix input_bus_channels input_channels bus_offset =
    mark_bus (blank input_bus_channels input_channels) bus_offset 0 input_channels

-- The loop of `build_output_mix_matrix`.
unfoldable pub mark_routes :
    FrozenTopology
    → List (List Gain)
    → List ActiveMapRoute
    → ActiveMapValidationError ⊎ List (List Gain)
unfolding mark
mark_routes t matrix [] = inr matrix
mark_routes t matrix (route ∷ routes) =
    elim (input_bus_index t route.input_id route.input_channel) [
      | none ↦ inl (unknown_input_id route.input_id)
      | some bus ↦ mark_routes t (mark matrix route.output_channel bus) routes
    ]

-- `build_output_mix_matrix`
unfoldable pub build_output_mix_matrix :
    FrozenTopology → ℕ → List ActiveMapRoute → ActiveMapValidationError ⊎ List (List Gain)
unfolding mark_routes
build_output_mix_matrix t output_channels routes =
    elim (validate_active_map_for_output t output_channels routes) [
      | some e ↦ inl e
      | none ↦ mark_routes t (blank output_channels t.input_bus_channels) routes
    ]
