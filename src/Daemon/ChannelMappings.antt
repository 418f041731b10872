-- ===== src/Daemon/ChannelMappings.antt =====
-- IS-08 channel mappings: `prepare_add_channelmapping` to
-- `cleanup_pending_channelmapping_activation` of rust/nvnmosd/src/state.rs.
mod Translate
pub use Translate.{ProtoInput, ProtoOutput}
unfoldable pub use Translate.{
  is_id_byte, is_channelmapping_id, or_default, ids_from, effective_input_ids, effective_output_ids,
  build_channelmapping,
}
use nvnmos.Common.{
  ◌==◌, nat_Eq, text_Eq, Text, ℕ, Bool, ◌&&◌, ◌||◌, not, Option, none, some, List, [], ◌∷◌,
  if◌then◌else◌, set, any, all,
}
use nvnmos.HashMap
use nvnmos.HashMap.{HashMap}
use nvnmos.Wrapper.{ActiveMapEntry, ChannelMappingConfig}
use nvnmos.Daemon.Status.{
  ◌>>=◌, ◌>>◌, ok_or, Result, invalid_argument, not_found, already_exists, failed_precondition,
  internal, ok, err,
}
use nvnmos.Daemon.Types.{
  side_Eq, HashSet, name_key_Eq, seed_key_Eq, SeedKey, SessionEntry, ChannelMappingEntry,
}
use nvnmos.Daemon.State.{fetch_add, session_handle, channelmapping_handle, State}
use nvnmos.Daemon.Streams.{
  reap_closed_channelmapping_subscription, has_active_channelmapping_subscription,
}
use nvnmos.Daemon.Resources.{server_of, Commit, committed, session_gone}

pub record AddChannelMappingPrep : Type 0 where
  pub server : ℕ
  pub name : Text
  pub mapping : ChannelMappingConfig
  pub node_seed : Text
  pub session_handle : Text
  pub input_ids : List Text
  pub output_ids : List Text

pub record AddChannelMappingOutcome : Type 0 where
  pub channelmapping_handle : Text
  pub input_ids : List Text
  pub output_ids : List Text
  pub node_seed : Text

pub record RemoveChannelMappingFfi : Type 0 where
  pub server : Option ℕ
  pub name : Text

pub record SyncChannelMappingFfi : Type 0 where
  pub server : ℕ
  pub name : Text
  pub output_id : Text
  pub active_map : List ActiveMapEntry

abbrev pub seed_key : Text → Text → SeedKey
seed_key seed name = record { node_seed = seed; name = name }

-- An id of the list stands in the set.
unfoldable pub meets : List Text → HashSet → Bool
meets ids set = any (λ id. HashMap.contains_key set id) ids

-- A mapping of the Node uses one of the ids.
unfoldable pub conflicts : Text → List Text → List Text → ChannelMappingEntry → Bool
unfolding meets
conflicts seed inputs outputs entry =
    entry.node_seed == seed && (meets inputs entry.input_ids || meets outputs entry.output_ids)

-- The checks of the ids, in order.
unfoldable pub check_ids :
    State → Text → List ProtoOutput → List Text → List Text → Result (Unit {0})
unfolding is_channelmapping_id conflicts
check_ids s seed outputs inputs ids =
    if not (all is_channelmapping_id inputs)
    then err invalid_argument
    else if not (all is_channelmapping_id ids)
    then err invalid_argument
    else if not (all (λ (o : ProtoOutput). all valid_routable o.routable_inputs) outputs)
    then err invalid_argument
    else if any (conflicts seed inputs ids) (HashMap.values s.channelmappings)
    then err already_exists
    else ok tt
  where
    valid_routable : Text → Bool
    valid_routable id = id == [] || is_channelmapping_id id

unfoldable pub find_mapping_room :
    State → Text → Text → List ProtoInput → List ProtoOutput → Result AddChannelMappingPrep
unfolding check_ids effective_input_ids effective_output_ids build_channelmapping server_of
find_mapping_room s handle name inputs outputs = do
  session ← ok_or (HashMap.get s.sessions handle) not_found
  let key = seed_key session.node_seed name
  if HashMap.contains_key s.channelmappings_by_name key then err already_exists else ok tt
  let input_ids = effective_input_ids inputs
  let output_ids = effective_output_ids outputs
  check_ids s session.node_seed outputs input_ids output_ids
  server ← ok_or (server_of s session.node_seed) internal
  ok (record {
    server = server;
    name = name;
    mapping = build_channelmapping inputs outputs input_ids output_ids;
    node_seed = session.node_seed;
    session_handle = handle;
    input_ids = input_ids;
    output_ids = output_ids;
  })

-- `State::prepare_add_channelmapping`
unfoldable pub prepare_add_channelmapping :
    (reaping checking : ℕ → Bool)
    → State
    → Text
    → Text
    → List ProtoInput
    → List ProtoOutput
    → State × Result AddChannelMappingPrep
unfolding reap_closed_channelmapping_subscription has_active_channelmapping_subscription
    find_mapping_room
prepare_add_channelmapping reaping checking s handle [] inputs outputs = (s, err invalid_argument)
prepare_add_channelmapping reaping checking s handle (c ∷ name) inputs outputs =
    let s' = reap_closed_channelmapping_subscription reaping s handle in
    if has_active_channelmapping_subscription checking s' handle
    then (s', find_mapping_room s' handle (c ∷ name) inputs outputs)
    else (s', err failed_precondition)

-- `ids.iter().cloned().collect::<HashSet<_>>()`
unfoldable pub to_set : List Text → HashSet
to_set [] = HashMap.empty
to_set (id ∷ ids) = HashMap.insert (to_set ids) id tt

unfoldable pub add_outputs : HashMap SeedKey Text → Text → Text → List Text → HashMap SeedKey Text
add_outputs outputs seed handle [] = outputs
add_outputs outputs seed handle (id ∷ ids) =
    add_outputs (HashMap.insert outputs (seed_key seed id) handle) seed handle ids

unfoldable pub record_channelmapping :
    State → Text → Text → Text → SessionEntry → List Text → List Text → State
unfolding to_set add_outputs
record_channelmapping s name seed handle session input_ids output_ids =
    let id = channelmapping_handle s.next_channelmapping_id in
    record s {
      next_channelmapping_id = fetch_add s.next_channelmapping_id;
      outputs_by_id = add_outputs s.outputs_by_id seed id output_ids;
      channelmappings = HashMap.insert s.channelmappings id (record {
        name = name;
        node_seed = seed;
        session_handle = handle;
        input_ids = to_set input_ids;
        output_ids = to_set output_ids;
      });
      channelmappings_by_name = HashMap.insert s.channelmappings_by_name (seed_key seed name) id;
      sessions =
          HashMap.insert s.sessions handle
            (record session { channelmappings = HashMap.insert session.channelmappings id tt });
    }

-- `State::commit_add_channelmapping`
unfoldable pub commit_add_channelmapping :
    State
    → Text
    → Text
    → Text
    → List Text
    → List Text
    → State × Commit AddChannelMappingOutcome RemoveChannelMappingFfi
unfolding record_channelmapping server_of
commit_add_channelmapping s name seed handle input_ids output_ids =
    elim (HashMap.get s.sessions handle) [
      | none ↦ (s, session_gone (record { server = server_of s seed; name = name }))
      | some session ↦ (
        record_channelmapping s name seed handle session input_ids output_ids,
        committed (record {
          channelmapping_handle = channelmapping_handle s.next_channelmapping_id;
          input_ids = input_ids;
          output_ids = output_ids;
          node_seed = seed;
        }),
      )
    ]
