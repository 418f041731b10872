-- ===== src/ChannelMap/ActiveMap.antt =====
-- Dense active maps and default routes: `active_map_entries_from_routes` and
-- `default_identity_routes` of
-- rust/gst-nmos-rs/src/channel_mapping/active_map.rs.
pub mod Dense
pub mod Identity
use nvnmos.Common.{
  ◌==◌, nat_Eq, text_Eq, Text, ℕ, zero, suc, ◌+◌, Option, none, some, List, [], ◌∷◌, ◌++◌, map, ltb,
  nat_eq, if◌then◌else◌, get_elem?, set, replicate,
}
use nvnmos.ChannelMap.Topology.{SinkPadSnapshot, FrozenTopology}
use nvnmos.ChannelMap.Validation.{or_zero, ActiveMapRoute}
use nvnmos.Wrapper.{ActiveMapEntry}

abbrev pub no_entry : ActiveMapEntry
no_entry = record { input_id = none; input_channel = none }

abbrev pub entry_of : ActiveMapRoute → ActiveMapEntry
entry_of r = record { input_id = some r.input_id; input_channel = some r.input_channel }

-- The loop, which skips a route to a channel that the output does not have.
unfoldable pub fill : ℕ → List ActiveMapEntry → List ActiveMapRoute → List ActiveMapEntry
fill output_channels entries [] = entries
fill output_channels entries (r ∷ rs) =
    fill output_channels
      (if ltb r.output_channel output_channels
        then set entries r.output_channel (entry_of r)
        else entries)
      rs

-- `active_map_entries_from_routes`
unfoldable pub active_map_entries_from_routes : ℕ → List ActiveMapRoute → List ActiveMapEntry
unfolding fill
active_map_entries_from_routes output_channels routes =
    fill output_channels (replicate output_channels no_entry) routes

-- The inner loop of `default_identity_routes`: the routes that it pushes from a channel on, and the
-- counter after it, which is missing when the function has returned.
unfoldable pub pad_routes : ℕ → Text → ℕ → ℕ → ℕ → List ActiveMapRoute × Option ℕ
pad_routes output_channels id ch zero logical = ([], some logical)
pad_routes output_channels id ch (suc count) logical =
    let rest = pad_routes output_channels id (ch + 1) count (logical + 1) in
    if ltb logical output_channels
    then (record { output_channel = logical; input_id = id; input_channel = ch } ∷ rest.0, rest.1)
    else ([], none)

abbrev pub id_or : Option Text → Text → Text
id_or none default = default
id_or (some id) default = id

-- The outer loop.
unfoldable pub bus_routes : List Text → ℕ → ℕ → List SinkPadSnapshot → ℕ → List ActiveMapRoute
unfolding pad_routes
bus_routes input_ids output_channels pad_idx [] logical = []
bus_routes input_ids output_channels pad_idx (sink ∷ sinks) logical =
    let input_id : Text = id_or (get_elem? input_ids pad_idx) sink.input_id in
    let pushed = pad_routes output_channels input_id 0 sink.negotiated_channels logical in
    elim pushed.1 [
      | none ↦ pushed.0
      | some next ↦ pushed.0 ++ bus_routes input_ids output_channels (suc pad_idx) sinks next
    ]

-- The loop for one of several outputs, from a channel on.
unfoldable pub own_routes : Text → ℕ → ℕ → List ActiveMapRoute
own_routes id ch zero = []
own_routes id ch (suc count) =
    record { output_channel = ch; input_id = id; input_channel = ch } ∷ own_routes id (ch + 1) count

-- `default_identity_routes`
unfoldable pub default_identity_routes :
    FrozenTopology → ℕ → ℕ → List SinkPadSnapshot → ℕ → List ActiveMapRoute
unfolding bus_routes own_routes
default_identity_routes t src_index output_channels sinks src_count =
    if nat_eq src_count 1
    then bus_routes t.input_ids output_channels 0 sinks 0
    else (let own = map (λ (s : SinkPadSnapshot). s.input_id) sinks in
        let input_id : Text =
          id_or (get_elem? t.input_ids src_index) (id_or (get_elem? own src_index) []) in
        let sink_channels =
          or_zero
            (get_elem? (map (λ (s : SinkPadSnapshot). s.negotiated_channels) sinks) src_index) in
        if input_id == []
        then []
        else own_routes input_id 0
            (if ltb sink_channels output_channels then sink_channels else output_channels))
