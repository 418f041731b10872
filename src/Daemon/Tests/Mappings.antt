-- ===== src/Daemon/Tests/Mappings.antt =====
-- Transport files and channel mappings on concrete inputs.
use nvnmos.Common.{
  nat_Eq, text_Eq, text_eq, Text, codes, decimal, starts_with, ℕ, ◌≡◌, refl, true, false, some, [],
  ◌∷◌, ◌++◌,
}
use nvnmos.HashMap
use nvnmos.HashMap.{HashMap}
use nvnmos.Wrapper.{rtp}
use nvnmos.Daemon.Types.{side_Eq, name_key_Eq, seed_key_Eq}
use nvnmos.Daemon.State.{session_handle, resource_handle, State}
use nvnmos.Daemon.Ports.{resolve_http_port}
use nvnmos.Daemon.Sessions.{prepare_open_session, commit_open_session}
use nvnmos.Daemon.Closing.{close_session}
use nvnmos.Daemon.Streams.{subscribe_activations, subscribe_channelmapping_activations}
use nvnmos.Daemon.Resources.{prepare_add_resource, commit_add_resource}
use nvnmos.Daemon.TransportFile.{strip_prefix, name_prefix, transport_file_name}
use nvnmos.Daemon.Steps.{start}
use nvnmos.Daemon.Tests.Run.{seed, no_port, first, shared, sender_name, no_tag}
use nvnmos.Daemon.Activations.{Sent, delivered}
use nvnmos.Daemon.TransportFile.Names.{ended, render, is_plain, transport_file_name-render}
use nvnmos.Daemon.ChannelMappings.{
  ProtoInput, ProtoOutput, build_channelmapping, prepare_add_channelmapping,
  commit_add_channelmapping, AddChannelMappingPrep,
}
use nvnmos.Daemon.MappingRoutes.{MappingRouted}
use nvnmos.Daemon.Promises.MappingIds.{prepare_add_channelmapping-IsRoom, IsMappingAsked, IsRoom}
use nvnmos.Daemon.State.{new}

transport_file_name-render_example :
    transport_file_name no_tag rtp (
      render
        ((codes "v=0", true) ∷ (codes "s=-", false) ∷ [])
        (ended (name_prefix ++ codes "cam", true) (codes "m=video")))
    ≡ some (codes "cam")
unfolding is_plain starts_with strip_prefix
transport_file_name-render_example =
    transport_file_name-render no_tag ((codes "v=0", true) ∷ (codes "s=-", false) ∷ []) b'c'
      (codes "am") true (codes "m=video") refl refl

abbrev input : ProtoInput
input = record {
  id = [];
  name = codes "in";
  description = [];
  channel_labels = codes "L" ∷ [];
  parent_name = [];
  parent_type = 0;
  reordering = true;
  block_size = 1;
}

abbrev output : ProtoOutput
output = record {
  id = codes "out";
  name = codes "out";
  description = [];
  channel_labels = codes "L" ∷ [];
  sender_name = sender_name;
  routable_inputs = [];
}

-- The first session subscribes to IS-08 activations too, on channel 6, and maps the output.
abbrev mapping_state : State
mapping_state = (subscribe_channelmapping_activations no_port shared.state first 6).0

abbrev mapping_name : Text
mapping_name = codes "map"

abbrev mapping : AddChannelMappingPrep
mapping = record {
  server = 7;
  name = mapping_name;
  mapping =
      build_channelmapping (input ∷ []) (output ∷ []) (codes "input0" ∷ []) (codes "out" ∷ []);
  node_seed = seed;
  session_handle = first;
  input_ids = codes "input0" ∷ [];
  output_ids = codes "out" ∷ [];
}

prepare_add_channelmapping-IsRoom_example :
    IsMappingAsked first mapping_name (input ∷ []) (output ∷ []) mapping
    × IsRoom no_port
        (prepare_add_channelmapping no_port no_port mapping_state first mapping_name
          (input ∷ [])
          (output ∷ [])).0
        mapping
unfolding start new prepare_open_session commit_open_session close_session HashMap.get
    HashMap.insert HashMap.remove HashMap.empty HashMap.keys_where HashMap.count HashMap.values
    resolve_http_port text_eq session_handle decimal subscribe_activations prepare_add_resource
    transport_file_name commit_add_resource resource_handle subscribe_channelmapping_activations
    prepare_add_channelmapping
prepare_add_channelmapping-IsRoom_example =
    prepare_add_channelmapping-IsRoom no_port no_port mapping_state first mapping_name (input ∷ [])
      (output ∷ []) mapping refl

abbrev mapped : State
mapped =
    (commit_add_channelmapping mapping_state mapping_name seed first (codes "input0" ∷ [])
      (codes "out" ∷ [])).0

abbrev deliver : ℕ → Sent
deliver _ = delivered

abbrev mapping_activation : MappingRouted
mapping_activation = record {
  activation_handle = codes "cm-act-0";
  ack = 0;
  tx = 6;
  event = record {
    channelmapping_handle = codes "cm-0";
    activation_handle = codes "cm-act-0";
    output_id = codes "out";
    active_map = [];
  };
}
