-- ===== src/Daemon/Closing.antt =====
-- `State::close_session` of rust/nvnmosd/src/state.rs, and the calls of `CloseSessionFfi::run`.
use nvnmos.Common.{
  ◌==◌, nat_Eq, text_Eq, Text, ◌-◌, Bool, true, ◌&&◌, none, some, List, [], ◌∷◌, if◌then◌else◌, set,
}
use nvnmos.HashMap
use nvnmos.HashMap.{HashMap}
use nvnmos.Daemon.Status.{Result, not_found, internal, ok, err}
use nvnmos.Daemon.Types.{
  side_Eq, HashSet, name_key_Eq, seed_key_Eq, Side, SeedKey, ResourceEntry, NodeEntry, SessionEntry,
  PendingActivation, ChannelMappingEntry,
}
use nvnmos.Daemon.State.{State}
use nvnmos.Daemon.Sessions.{is_refcounted, CloseOutcome, CloseSessionFfi}

-- The pending activations of the session, whose acknowledgement senders are dropped.
unfoldable pub abort_pending :
    HashMap Text PendingActivation → List Text → HashMap Text PendingActivation
abort_pending pending [] = pending
abort_pending pending (handle ∷ rest) = abort_pending (HashMap.remove pending handle) rest

unfoldable pub pending_of : Text → HashMap Text PendingActivation → List Text
pending_of handle pending = HashMap.keys_where (λ _ p. p.session_handle == handle) pending

-- The loop over `session.resources`: the maps lose each resource, and its removal is noted.
unfoldable pub drop_resource : State → Text → ResourceEntry → State
drop_resource s handle resource = record s {
  resources = HashMap.remove s.resources handle;
  by_name =
      HashMap.remove s.by_name
        (record { node_seed = resource.node_seed; side = resource.side; name = resource.name });
}

unfoldable pub drop_resources : State → List Text → State × List (Side × Text)
unfolding drop_resource
drop_resources s [] = (s, [])
drop_resources s (handle ∷ rest) = elim (HashMap.get s.resources handle) [
  | none ↦ drop_resources s rest
  | some resource ↦
      let later = drop_resources (drop_resource s handle resource) rest in
      (later.0, (resource.side, resource.name) ∷ later.1)
]

-- The loop over `entry.output_ids`.
unfoldable pub drop_outputs : HashMap SeedKey Text → Text → List Text → HashMap SeedKey Text
drop_outputs outputs seed [] = outputs
drop_outputs outputs seed (id ∷ rest) =
    drop_outputs (HashMap.remove outputs (record { node_seed = seed; name = id })) seed rest

abbrev pub elements : HashSet → List Text
elements set = HashMap.keys_where (λ _ _. true) set

unfoldable pub drop_channelmapping : State → Text → ChannelMappingEntry → State
unfolding drop_outputs
drop_channelmapping s handle entry = record s {
  channelmappings = HashMap.remove s.channelmappings handle;
  channelmappings_by_name =
      HashMap.remove s.channelmappings_by_name
        (record { node_seed = entry.node_seed; name = entry.name });
  outputs_by_id = drop_outputs s.outputs_by_id entry.node_seed (elements entry.output_ids);
}

-- The loop over `session.channelmappings`.
unfoldable pub drop_channelmappings : State → List Text → State × List Text
unfolding drop_channelmapping
drop_channelmappings s [] = (s, [])
drop_channelmappings s (handle ∷ rest) = elim (HashMap.get s.channelmappings handle) [
  | none ↦ drop_channelmappings s rest
  | some entry ↦
      let later = drop_channelmappings (drop_channelmapping s handle entry) rest in
      (later.0, entry.name ∷ later.1)
]

-- What is done before the Node is looked up.
unfoldable pub forget_session : State → Text → State
unfolding abort_pending pending_of
forget_session s handle = record s {
  sessions = HashMap.remove s.sessions handle;
  subscriptions = HashMap.remove s.subscriptions handle;
  annotation_subscriptions = HashMap.remove s.annotation_subscriptions handle;
  pending_activations =
      abort_pending s.pending_activations (pending_of handle s.pending_activations);
}

unfoldable pub forget_channelmapping_stream : State → Text → State
unfolding abort_pending pending_of
forget_channelmapping_stream s handle = record s {
  channelmapping_subscriptions = HashMap.remove s.channelmapping_subscriptions handle;
  pending_channelmapping_activations =
      abort_pending s.pending_channelmapping_activations
        (pending_of handle s.pending_channelmapping_activations);
}

-- `lifetime == SessionRefcounted && remaining_sessions == 0`, after `saturating_sub(1)`.
abbrev pub destroys : NodeEntry → Bool
destroys entry = is_refcounted entry.lifetime && entry.attached_sessions - 1 == 0

-- The Node loses one session, and goes with the last one of a refcounted Node.
unfoldable pub detach : State → Text → NodeEntry → State
detach s seed entry =
    if destroys entry
    then record s {
      http_ports = HashMap.remove s.http_ports entry.http_port;
      nodes = HashMap.remove s.nodes seed;
    }
    else record s {
      nodes =
          HashMap.insert s.nodes seed
            (record entry { attached_sessions = entry.attached_sessions - 1 });
    }

-- The state that `close_session` leaves when the session and its Node are there.
unfoldable pub closed : State → Text → SessionEntry → NodeEntry → State
unfolding forget_session drop_resources drop_channelmappings forget_channelmapping_stream detach
closed s handle session entry =
    let s1 = forget_session s handle in
    let s2 = (drop_resources s1 (elements session.resources)).0 in
    let s3 = (drop_channelmappings s2 (elements session.channelmappings)).0 in
    detach (forget_channelmapping_stream s3 handle) session.node_seed entry

abbrev pub close_outcome : SessionEntry → NodeEntry → CloseOutcome
close_outcome session entry = record {
  node_seed = session.node_seed;
  node_id = entry.node_id;
  lifetime = entry.lifetime;
  remaining_sessions = entry.attached_sessions - 1;
  node_destroyed = destroys entry;
}

unfoldable pub close_ffi : State → Text → SessionEntry → NodeEntry → CloseSessionFfi
unfolding forget_session drop_resources drop_channelmappings
close_ffi s handle session entry =
    let dropped = drop_resources (forget_session s handle) (elements session.resources) in
    record {
      server = entry.server;
      resource_removals = dropped.1;
      channelmapping_removals =
          (drop_channelmappings dropped.0 (elements session.channelmappings)).1;
    }

-- `State::close_session`
unfoldable pub close_session : State → Text → State × Result (CloseOutcome × CloseSessionFfi)
unfolding closed close_ffi forget_session
close_session s handle = elim (HashMap.get s.sessions handle) [
  | none ↦ (s, err not_found)
  | some session ↦ elim (HashMap.get s.nodes session.node_seed) [
    | none ↦ (forget_session s handle, err internal)
    | some entry ↦ (
      closed s handle session entry,
      ok (close_outcome session entry, close_ffi s handle session entry),
    )
  ]
]
