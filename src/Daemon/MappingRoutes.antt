-- ===== src/Daemon/MappingRoutes.antt =====
-- IS-08 channel mappings in use: `remove_channelmapping` to
-- `cleanup_pending_channelmapping_activation` of rust/nvnmosd/src/state.rs, and the two translations
-- of active maps.
use nvnmos.Common.{
  ◌==◌, nat_Eq, text_Eq, Text, ℕ, Bool, not, Option, none, some, List, map, if◌then◌else◌,
}
use nvnmos.HashMap
use nvnmos.HashMap.{HashMap}
use nvnmos.Wrapper.{ActiveMapEntry}
use nvnmos.Daemon.Status.{◌>>=◌, ok_or, Result, not_found, internal, ok, err}
use nvnmos.Daemon.Types.{side_Eq, name_key_Eq, seed_key_Eq, SessionEntry, ChannelMappingEntry}
use nvnmos.Daemon.State.{fetch_add, channelmapping_activation_handle, State}
use nvnmos.Daemon.Streams.{has_session, reap_closed_channelmapping_subscription}
use nvnmos.Daemon.Resources.{server_of}
use nvnmos.Daemon.Closing.{drop_outputs, elements}
use nvnmos.Daemon.Activations.{Sent, delivered, full, closed}
use nvnmos.Daemon.ChannelMappings.{seed_key, RemoveChannelMappingFfi, SyncChannelMappingFfi}

-- The `ActiveMapEntry` message.
pub record ProtoActiveMapEntry : Type 0 where
  pub input_id : Option Text
  pub input_channel : Option ℕ

unfoldable pub active_map_from_proto : List ProtoActiveMapEntry → List ActiveMapEntry
active_map_from_proto =
    map (λ entry. record { input_id = entry.input_id; input_channel = entry.input_channel })

unfoldable pub active_map_to_proto : List ActiveMapEntry → List ProtoActiveMapEntry
active_map_to_proto =
    map (λ entry. record { input_id = entry.input_id; input_channel = entry.input_channel })

unfoldable pub owned_mapping_session : State → Text → Text → Result SessionEntry
owned_mapping_session s handle mapping = do
  session ← ok_or (HashMap.get s.sessions handle) not_found
  if HashMap.contains_key session.channelmappings mapping then ok session else err not_found

unfoldable pub forget_channelmapping :
    State → Text → SessionEntry → Text → ChannelMappingEntry → State
unfolding drop_outputs
forget_channelmapping s handle session id entry = record s {
  channelmappings = HashMap.remove s.channelmappings id;
  channelmappings_by_name =
      HashMap.remove s.channelmappings_by_name (seed_key entry.node_seed entry.name);
  outputs_by_id = drop_outputs s.outputs_by_id entry.node_seed (elements entry.output_ids);
  sessions =
      HashMap.insert s.sessions handle
        (record session { channelmappings = HashMap.remove session.channelmappings id });
}

-- `State::remove_channelmapping`; the outcome is the seed and the name.
unfoldable pub remove_channelmapping :
    State → Text → Text → State × Result ((Text × Text) × RemoveChannelMappingFfi)
unfolding owned_mapping_session forget_channelmapping server_of
remove_channelmapping s handle id = elim (owned_mapping_session s handle id) [
  | err c ↦ (s, err c)
  | ok session ↦ elim (HashMap.get s.channelmappings id) [
    | none ↦ (s, err internal)
    | some entry ↦ (
      forget_channelmapping s handle session id entry,
      ok (
        (entry.node_seed, entry.name),
        record { server = server_of s entry.node_seed; name = entry.name },
      ),
    )
  ]
]

-- `State::sync_channelmapping_state`
unfoldable pub sync_channelmapping_state :
    State
    → Text
    → Text
    → Text
    → List ProtoActiveMapEntry
    → Result ((Text × Text) × SyncChannelMappingFfi)
unfolding owned_mapping_session server_of active_map_from_proto
sync_channelmapping_state s handle id output active_map = do
  _ ← owned_mapping_session s handle id
  entry ← ok_or (HashMap.get s.channelmappings id) internal
  server ← ok_or (server_of s entry.node_seed) internal
  ok (
    (entry.node_seed, entry.name),
    record {
      server = server;
      name = entry.name;
      output_id = output;
      active_map = active_map_from_proto active_map;
    },
  )

pub record MappingEvent : Type 0 where
  pub channelmapping_handle : Text
  pub activation_handle : Text
  pub output_id : Text
  pub active_map : List ProtoActiveMapEntry

pub record MappingRouted : Type 0 where
  pub activation_handle : Text
  pub ack : ℕ
  pub tx : ℕ
  pub event : MappingEvent

pub data MappingDispatch : Type 0 where
  mapping_routed : MappingRouted → MappingDispatch
  no_channelmapping no_mapping_subscriber mapping_subscriber_busy : MappingDispatch

unfoldable pub mapping_stream_of : (ℕ → Bool) → State → Text → State × Option ℕ
unfolding reap_closed_channelmapping_subscription
mapping_stream_of is_closed s owner =
    let s' = reap_closed_channelmapping_subscription is_closed s owner in
    (s', HashMap.get s'.channelmapping_subscriptions owner)

unfoldable pub send_mapping : (ℕ → Sent) → State → Text → ℕ → MappingEvent → State × MappingDispatch
send_mapping try_send s owner tx event =
    let allocated = record s {
      next_channelmapping_activation_id = fetch_add s.next_channelmapping_activation_id;
    } in
    elim (try_send tx) [
      | full ↦ (allocated, mapping_subscriber_busy)
      | closed ↦ (
        record allocated {
          channelmapping_subscriptions = HashMap.remove s.channelmapping_subscriptions owner;
        },
        no_mapping_subscriber,
      )
      | delivered ↦ (
        record allocated {
          pending_channelmapping_activations =
              HashMap.insert s.pending_channelmapping_activations event.activation_handle
                (record { session_handle = owner; ack_tx = s.next_channelmapping_activation_id });
        },
        mapping_routed (record {
          activation_handle = event.activation_handle;
          ack = s.next_channelmapping_activation_id;
          tx = tx;
          event = event;
        }),
      )
    ]

-- `State::dispatch_channelmapping_activation`
unfoldable pub dispatch_channelmapping_activation :
    (ℕ → Bool)
    → (ℕ → Sent)
    → State
    → Text
    → Text
    → List ProtoActiveMapEntry
    → State × MappingDispatch
unfolding mapping_stream_of send_mapping
dispatch_channelmapping_activation is_closed try_send s seed output active_map =
    elim (HashMap.get s.outputs_by_id (seed_key seed output)) [
      | none ↦ (s, no_channelmapping)
      | some mapping ↦ elim (HashMap.get s.channelmappings mapping) [
        | none ↦ (s, no_channelmapping)
        | some entry ↦
            let found = mapping_stream_of is_closed s entry.session_handle in
            elim found.1 [
              | none ↦ (found.0, no_mapping_subscriber)
              | some tx ↦ send_mapping try_send found.0 entry.session_handle tx (record {
                channelmapping_handle = mapping;
                activation_handle =
                    channelmapping_activation_handle s.next_channelmapping_activation_id;
                output_id = output;
                active_map = active_map;
              })
            ]
      ]
    ]

-- `State::complete_channelmapping_activation`
unfoldable pub complete_channelmapping_activation : State → Text → Text → State × Result ℕ
complete_channelmapping_activation s handle activation =
    if not (has_session s handle)
    then (s, err not_found)
    else elim (HashMap.get s.pending_channelmapping_activations activation) [
      | none ↦ (s, err not_found)
      | some pending ↦
          if pending.session_handle == handle
          then (
            record s {
              pending_channelmapping_activations =
                  HashMap.remove s.pending_channelmapping_activations activation;
            },
            ok pending.ack_tx,
          )
          else (s, err not_found)
    ]

-- `State::cleanup_pending_channelmapping_activation`
unfoldable pub cleanup_pending_channelmapping_activation : State → Text → State
cleanup_pending_channelmapping_activation s activation = record s {
  pending_channelmapping_activations =
      HashMap.remove s.pending_channelmapping_activations activation;
}
