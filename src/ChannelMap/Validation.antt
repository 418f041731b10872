-- ===== src/ChannelMap/Validation.antt =====
-- Active maps of one output: `ActiveMapRoute` (rust/gst-nmos-rs/src/channel_mapping/active_map.rs),
-- `validate_active_map_for_output` and `routes_from_activation` (matrix.rs there).
pub mod Valid
pub mod Activation
use nvnmos.Common.{
  ◌==◌, nat_Eq, text_Eq, Text, ℕ, ◌+◌, ◌-◌, ◌%◌, ◌^◌, ◌⊎◌, inl, inr, not, Option, none, some, List,
  [], ◌∷◌, ltb, nat_eq, if◌then◌else◌, get_elem?, any,
}
use nvnmos.ChannelMap.Topology.{position, FrozenTopology}
use nvnmos.Wrapper.{ActiveMapEntry}

pub record ActiveMapRoute : Type 0 where
  pub output_channel : ℕ
  pub input_id : Text
  pub input_channel : ℕ

pub data ActiveMapValidationError : Type 0 where
  unknown_input_id : Text → ActiveMapValidationError
  input_channel_out_of_range : Text → ℕ → ℕ → ActiveMapValidationError
  duplicate_output_channel : ℕ → ActiveMapValidationError
  output_channel_out_of_range : ℕ → ℕ → ActiveMapValidationError

abbrev pub or_zero : Option ℕ → ℕ
or_zero none = 0
or_zero (some n) = n

-- One round of the loop, with the outputs that the earlier rounds have seen.
unfoldable pub check_route :
    FrozenTopology → ℕ → List ℕ → ActiveMapRoute → Option ActiveMapValidationError
check_route t output_channels seen route =
    if not (ltb route.output_channel output_channels)
    then some (output_channel_out_of_range route.output_channel (output_channels - 1))
    else if any (λ o. nat_eq o route.output_channel) seen
    then some (duplicate_output_channel route.output_channel)
    else elim (position route.input_id t.input_ids) [
      | none ↦ some (unknown_input_id route.input_id)
      | some pad ↦
          let max_channel = or_zero (get_elem? t.input_channels pad) in
          if ltb route.input_channel max_channel
          then none
          else some
              (input_channel_out_of_range route.input_id route.input_channel (max_channel - 1))
    ]

unfoldable pub validate_from :
    FrozenTopology → ℕ → List ℕ → List ActiveMapRoute → Option ActiveMapValidationError
unfolding check_route
validate_from t output_channels seen [] = none
validate_from t output_channels seen (route ∷ routes) =
    elim (check_route t output_channels seen route) [
      | some e ↦ some e
      | none ↦ validate_from t output_channels (route.output_channel ∷ seen) routes
    ]

-- `validate_active_map_for_output`: `none` is `Ok(())`.
unfoldable pub validate_active_map_for_output :
    FrozenTopology → ℕ → List ActiveMapRoute → Option ActiveMapValidationError
unfolding validate_from
validate_active_map_for_output t output_channels routes = validate_from t output_channels [] routes

-- The closure of `filter_map` in `routes_from_activation`.
unfoldable pub route_of : ℕ → ActiveMapEntry → Option ActiveMapRoute
route_of output entry = elim entry.input_id [
  | none ↦ none
  | some id ↦ if id == [] then none else elim entry.input_channel [
    | none ↦ none
    | some channel ↦
        some (record { output_channel = output; input_id = id; input_channel = channel })
  ]
]

-- `out_ch as u32` keeps the low 32 bits of the position.
unfoldable pub routes_of : ℕ → List ActiveMapEntry → List ActiveMapRoute
unfolding route_of
routes_of output [] = []
routes_of output (entry ∷ entries) =
    let rest = routes_of (output + 1) entries in
    elim (route_of (output % 2 ^ 32) entry) [ none ↦ rest | some route ↦ route ∷ rest ]

-- `routes_from_activation`
unfoldable pub routes_from_activation :
    FrozenTopology → Text → List ActiveMapEntry → ActiveMapValidationError ⊎ List ActiveMapRoute
unfolding routes_of validate_active_map_for_output
routes_from_activation t output_id active_map = elim (position output_id t.output_ids) [
  | none ↦ inl (output_channel_out_of_range 0 0)
  | some index ↦
      let output_channels = or_zero (get_elem? t.output_channels index) in
      let routes = routes_of 0 active_map in
      elim (validate_active_map_for_output t output_channels routes) [
        | some e ↦ inl e
        | none ↦ inr routes
      ]
]
