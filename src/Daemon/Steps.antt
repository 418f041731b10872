-- ===== src/Daemon/Steps.antt =====
-- The locked sections of the daemon as a step relation. The RPC handlers of
-- rust/nvnmosd/src/main.rs release the lock while libnvnmos works, so other steps can stand between
-- the first section of a handler and its last: `builds` and `adds` hold what a handler carries over,
-- under the number of its RPC.
pub mod Valid
use nvnmos.Common.{nat_Eq, text_Eq, Text, ℕ, ◌+◌, ◌^◌, ◌<◌, ◌≡◌, Bool, Option, none, some, List}
use nvnmos.HashMap
use nvnmos.HashMap.{HashMap}
use nvnmos.Wrapper.{Transport, NodeConfig}
use nvnmos.Daemon.Status.{ok}
use nvnmos.Daemon.Types.{side_Eq, name_key_Eq, seed_key_Eq, Side}
use nvnmos.Daemon.State.{new, State}
use nvnmos.Daemon.Ports.{PortRange}
use nvnmos.Daemon.Sessions.{
  prepare_open_session, commit_open_session, abort_pending_node, prepare_add_node, commit_add_node,
  remove_node, OpenOutcome, CreateNodePrep, CreateNodeReady, attached, create,
}
use nvnmos.Daemon.Closing.{close_session}
use nvnmos.Daemon.Streams.{
  subscribe_activations, subscribe_channelmapping_activations, reap_annotation_subscription,
  drop_annotation_subscription, on_subscription_stream_ended,
  on_channelmapping_subscription_stream_ended,
}
use nvnmos.Daemon.Resources.{
  prepare_add_resource, commit_add_resource, remove_resource, AddResourcePrep,
}
use nvnmos.Daemon.Activations.{
  dispatch_activation, complete_activation, cleanup_pending_activation, Sent,
}
use nvnmos.Daemon.ChannelMappings.{
  ProtoInput, ProtoOutput, prepare_add_channelmapping, commit_add_channelmapping,
}
use nvnmos.Daemon.MappingRoutes.{
  remove_channelmapping, dispatch_channelmapping_activation, complete_channelmapping_activation,
  cleanup_pending_channelmapping_activation, ProtoActiveMapEntry,
}
use nvnmos.Wrapper.{AnnotationUpdate}
use nvnmos.Daemon.AnnotationStore.{Inner}
use nvnmos.Daemon.Annotations.{publish_annotation, emit_added_resource, open_annotations, Channels}
use nvnmos.Daemon.Nodes.{Builds, Build}

pub record System : Type 0 where
  pub state : State
  pub builds : Builds
  pub adds : HashMap ℕ AddResourcePrep

-- What libnvnmos returns for a build in flight.
abbrev pub built : Build → ℕ → Text → Text → CreateNodeReady
built b server node_id device_id = record {
  seed = b.seed;
  http_port = b.http_port;
  server = server;
  node_id = node_id;
  device_id = device_id;
}

abbrev pub build_of : CreateNodePrep → Build
build_of prep = record { seed = prep.seed; http_port = prep.http_port }

-- The 64-bit counters do not wrap: a step that allocates a handle has room for it.
pub data Step : System → System → Type 0 where
  open_attach :
      (y : System) (bindable : ℕ → Bool) (config : NodeConfig) (range : PortRange) (o : OpenOutcome)
      → y.state.next_session_id + 1 < 2 ^ 64
      → (prepare_open_session bindable y.state config range).1 ≡ ok (attached o)
      → Step y (record y { state = (prepare_open_session bindable y.state config range).0 })
  open_begin :
      (y : System) (rpc : ℕ) (bindable : ℕ → Bool) (config : NodeConfig) (range : PortRange)
      (prep : CreateNodePrep)
      → HashMap.get y.builds rpc ≡ none
      → (prepare_open_session bindable y.state config range).1 ≡ ok (create prep)
      → Step y (record y {
        state = (prepare_open_session bindable y.state config range).0;
        builds = HashMap.insert y.builds rpc (build_of prep);
      })
  open_commit :
      (y : System) (rpc : ℕ) (b : Build) (server : ℕ) (node_id device_id : Text)
      → y.state.next_session_id + 1 < 2 ^ 64
      → HashMap.get y.builds rpc ≡ some b
      → Step y (record y {
        state = (commit_open_session y.state (built b server node_id device_id)).0;
        builds = HashMap.remove y.builds rpc;
      })
  add_node_begin :
      (y : System) (rpc : ℕ) (bindable : ℕ → Bool) (config : NodeConfig) (range : PortRange)
      (prep : CreateNodePrep)
      → HashMap.get y.builds rpc ≡ none
      → (prepare_add_node bindable y.state config range).1 ≡ ok prep
      → Step y (record y {
        state = (prepare_add_node bindable y.state config range).0;
        builds = HashMap.insert y.builds rpc (build_of prep);
      })
  add_node_commit :
      (y : System) (rpc : ℕ) (b : Build) (server : ℕ) (node_id device_id : Text)
      → HashMap.get y.builds rpc ≡ some b
      → Step y (record y {
        state = (commit_add_node y.state (built b server node_id device_id)).0;
        builds = HashMap.remove y.builds rpc;
      })
  build_fails :
      (y : System) (rpc : ℕ) (b : Build)
      → HashMap.get y.builds rpc ≡ some b
      → Step y (record y {
        state = abort_pending_node y.state b.seed b.http_port;
        builds = HashMap.remove y.builds rpc;
      })
  closes :
      (y : System) (handle : Text) → Step y (record y { state = (close_session y.state handle).0 })
  removes_node :
      (y : System) (seed : Text) → Step y (record y { state = (remove_node y.state seed).0 })
  add_begin :
      (y : System) (rpc : ℕ) (tag : Text → Option Text) (reaping checking : ℕ → Bool) (side : Side)
      (handle : Text) (transport : Transport) (file name : Text) (prep : AddResourcePrep)
      → HashMap.get y.adds rpc ≡ none
      → (prepare_add_resource tag reaping checking y.state side handle transport file name).1
        ≡ ok prep
      → Step y (record y {
        state =
            (prepare_add_resource tag reaping checking y.state side handle transport file name).0;
        adds = HashMap.insert y.adds rpc prep;
      })
  add_refused :
      (y : System) (tag : Text → Option Text) (reaping checking : ℕ → Bool) (side : Side)
      (handle : Text) (transport : Transport) (file name : Text)
      → Step y (record y {
        state =
            (prepare_add_resource tag reaping checking y.state side handle transport file name).0;
      })
  add_commit :
      (y : System) (rpc : ℕ) (prep : AddResourcePrep)
      → y.state.next_resource_id + 1 < 2 ^ 64
      → HashMap.get y.adds rpc ≡ some prep
      → Step y (record y {
        state =
            (commit_add_resource y.state prep.side prep.name prep.node_seed prep.session_handle).0;
        adds = HashMap.remove y.adds rpc;
      })
  add_fails : (y : System) (rpc : ℕ) → Step y (record y { adds = HashMap.remove y.adds rpc })
  removes_resource :
      (y : System) (handle id : Text)
      → Step y (record y { state = (remove_resource y.state handle id).0 })
  maps_begin :
      (y : System) (reaping checking : ℕ → Bool) (handle name : Text) (inputs : List ProtoInput)
      (outputs : List ProtoOutput)
      → Step y (record y {
        state = (prepare_add_channelmapping reaping checking y.state handle name inputs outputs).0;
      })
  maps_commit :
      (y : System) (name seed handle : Text) (input_ids output_ids : List Text)
      → Step y (record y {
        state = (commit_add_channelmapping y.state name seed handle input_ids output_ids).0;
      })
  removes_mapping :
      (y : System) (handle id : Text)
      → Step y (record y { state = (remove_channelmapping y.state handle id).0 })
  subscribes :
      (y : System) (f : ℕ → Bool) (handle : Text) (tx : ℕ)
      → Step y (record y { state = (subscribe_activations f y.state handle tx).0 })
  subscribes_annotations :
      (y : System) (f : ℕ → Bool) (accepts : ℕ → ℕ → Bool) (handle : Text) (tx : ℕ) (store : Inner)
      → Step y (record y { state = (open_annotations f accepts y.state handle tx store).0 })
  publishes :
      (y : System) (f : ℕ → Bool) (c : Channels) (seed : Text) (update : AnnotationUpdate)
      (store : Inner)
      → Step y (record y { state = (publish_annotation f c y.state seed update store).0 })
  emits :
      (y : System) (f : ℕ → Bool) (c : Channels) (id : Text) (store : Inner)
      → Step y (record y { state = (emit_added_resource f c y.state id store).0 })
  subscribes_mappings :
      (y : System) (f : ℕ → Bool) (handle : Text) (tx : ℕ)
      → Step y (record y { state = (subscribe_channelmapping_activations f y.state handle tx).0 })
  stream_ends :
      (y : System) (f g : ℕ → Bool) (handle : Text)
      → Step y (record y { state = (on_subscription_stream_ended f g y.state handle).0 })
  mapping_stream_ends :
      (y : System) (f g : ℕ → Bool) (handle : Text)
      → Step y
          (record y { state = (on_channelmapping_subscription_stream_ended f g y.state handle).0 })
  annotation_stream_ends :
      (y : System) (f : ℕ → Bool) (handle : Text)
      → Step y (record y { state = reap_annotation_subscription f y.state handle })
  annotation_stream_drops :
      (y : System) (handle : Text)
      → Step y (record y { state = drop_annotation_subscription y.state handle })
  dispatches :
      (y : System) (f : ℕ → Bool) (send : ℕ → Sent) (seed : Text) (side : Side) (name : Text)
      (file : Option Text)
      → Step y (record y { state = (dispatch_activation f send y.state seed side name file).0 })
  acknowledges :
      (y : System) (handle activation : Text)
      → Step y (record y { state = (complete_activation y.state handle activation).0 })
  gives_up :
      (y : System) (activation : Text)
      → Step y (record y { state = cleanup_pending_activation y.state activation })
  dispatches_mapping :
      (y : System) (f : ℕ → Bool) (send : ℕ → Sent) (seed output : Text)
      (active_map : List ProtoActiveMapEntry)
      → Step y (record y {
        state = (dispatch_channelmapping_activation f send y.state seed output active_map).0;
      })
  acknowledges_mapping :
      (y : System) (handle activation : Text)
      → Step y
          (record y { state = (complete_channelmapping_activation y.state handle activation).0 })
  gives_up_mapping :
      (y : System) (activation : Text)
      → Step y (record y { state = cleanup_pending_channelmapping_activation y.state activation })

-- The systems that a run of the daemon can come to.
pub data Reach (y : System) : System → Type 0 where
  here : Reach y y
  next : {u v : System} → Reach y u → Step u v → Reach y v

unfoldable pub start : System
unfolding new
start = record { state = new; builds = HashMap.empty; adds = HashMap.empty }
