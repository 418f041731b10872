-- ===== src/Daemon/Steps/Valid/Reachable.antt =====
-- Every system that the daemon can come to is valid.
use nvnmos.Common.{nat_Eq, text_Eq, [], map, arith}
use nvnmos.HashMap.{get-empty}
use nvnmos.Daemon.Types.{side_Eq, name_key_Eq, seed_key_Eq}
use nvnmos.Daemon.State.{new, session_handle, resource_handle}
use nvnmos.Daemon.Resources.Cases.{prepare_add_resource-IsPrepared}
use nvnmos.Daemon.Unmoved.{
  subscribe_activations-Unmoved, subscribe_channelmapping_activations-Unmoved, stream_ended-Unmoved,
  mapping_stream_ended-Unmoved, reap_annotation-Unmoved, dispatch-Unmoved, mapping_dispatch-Unmoved,
  prepare_add_resource-Unmoved, complete-Unmoved, mapping_complete-Unmoved, cleanup-Unmoved,
  mapping_cleanup-Unmoved, drop_annotation-Unmoved, prepare_add_channelmapping-Unmoved,
}
use nvnmos.Daemon.Steps.{
  start, System, Step, Reach, open_attach, open_begin, open_commit, add_node_begin, add_node_commit,
  build_fails, closes, removes_node, add_begin, add_refused, add_commit, add_fails,
  removes_resource, maps_begin, maps_commit, removes_mapping, subscribes, subscribes_annotations,
  publishes, emits, subscribes_mappings, stream_ends, mapping_stream_ends, annotation_stream_ends,
  annotation_stream_drops, dispatches, acknowledges, gives_up, dispatches_mapping,
  acknowledges_mapping, gives_up_mapping, here, next,
}
use nvnmos.Daemon.Steps.Valid.{IsValid}
use nvnmos.Daemon.Steps.Valid.Open.{
  Unmoved-IsValid, commit_add_node-IsValid, commit_open_session-IsValid, abort_pending_node-IsValid,
}
use nvnmos.Daemon.Steps.Valid.Runs.{
  close_session-IsValid, remove_node-IsValid, untrack-IsTracked, commit_add-IsValid,
  begin_add-IsValid, remove_resource-IsValid, commit_mapping-IsValid, remove_mapping-IsValid,
}
use nvnmos.Daemon.Steps.Valid.Begin.{
  open_attach-IsValid, open_begin-IsValid, add_node_begin-IsValid,
}
use nvnmos.Wrapper.{resource_type_Eq}
use nvnmos.Daemon.Annotations.Frame.{emit_added_resource-Unmoved, publish_annotation-Unmoved}
use nvnmos.Daemon.Annotations.Snapshot.{open_annotations-Unmoved}

Step-IsValid : {y z : System} → Step y z → IsValid y → IsValid z
Step-IsValid (open_attach y f config range o bound h) v =
    open_attach-IsValid y f config range o v bound h
Step-IsValid (open_begin y rpc f config range prep held h) v =
    open_begin-IsValid y rpc f config range prep v held h
Step-IsValid (open_commit y rpc b server node_id device_id bound held) v =
    commit_open_session-IsValid y rpc b v held server node_id device_id bound
Step-IsValid (add_node_begin y rpc f config range prep held h) v =
    add_node_begin-IsValid y rpc f config range prep v held h
Step-IsValid (add_node_commit y rpc b server node_id device_id held) v =
    commit_add_node-IsValid y rpc b v held server node_id device_id
Step-IsValid (build_fails y rpc b held) v = abort_pending_node-IsValid y rpc b v held 0 [] []
Step-IsValid (closes y handle) v = close_session-IsValid y handle v
Step-IsValid (removes_node y seed) v = remove_node-IsValid y seed v
Step-IsValid (add_begin y rpc tag f g side handle transport file name prep held h) v =
    begin_add-IsValid g _ rpc prep
      (Unmoved-IsValid y _
        (prepare_add_resource-Unmoved f y.state handle tag g side transport file name) v)
      ((prepare_add_resource-IsPrepared tag f g y.state side handle transport file name prep h).1)
Step-IsValid (add_refused y tag f g side handle transport file name) v =
    Unmoved-IsValid y _
      (prepare_add_resource-Unmoved f y.state handle tag g side transport file name) v
Step-IsValid (add_commit y rpc prep bound held) v = commit_add-IsValid y rpc prep v bound held
Step-IsValid (add_fails y rpc) v = record {
  core = v.core;
  index = v.index;
  tracked = untrack-IsTracked y.state y.adds rpc v.tracked;
}
Step-IsValid (removes_resource y handle id) v = remove_resource-IsValid y handle id v
Step-IsValid (maps_begin y f g handle name inputs outputs) v =
    Unmoved-IsValid y _ (prepare_add_channelmapping-Unmoved f g y.state handle name inputs outputs)
      v
Step-IsValid (maps_commit y name seed handle inputs outputs) v =
    commit_mapping-IsValid y name seed handle inputs outputs v
Step-IsValid (removes_mapping y handle id) v = remove_mapping-IsValid y handle id v
Step-IsValid (subscribes y f handle tx) v =
    Unmoved-IsValid y _ (subscribe_activations-Unmoved f y.state handle tx) v
Step-IsValid (subscribes_annotations y f accepts handle tx store) v =
    Unmoved-IsValid y _ (open_annotations-Unmoved f accepts y.state handle tx store) v
Step-IsValid (publishes y f c seed update store) v =
    Unmoved-IsValid y _ (publish_annotation-Unmoved f c y.state seed update store) v
Step-IsValid (emits y f c id store) v =
    Unmoved-IsValid y _ (emit_added_resource-Unmoved f c y.state id store) v
Step-IsValid (subscribes_mappings y f handle tx) v =
    Unmoved-IsValid y _ (subscribe_channelmapping_activations-Unmoved f y.state handle tx) v
Step-IsValid (stream_ends y f g handle) v =
    Unmoved-IsValid y _ (stream_ended-Unmoved f y.state handle g) v
Step-IsValid (mapping_stream_ends y f g handle) v =
    Unmoved-IsValid y _ (mapping_stream_ended-Unmoved f y.state handle g) v
Step-IsValid (annotation_stream_ends y f handle) v =
    Unmoved-IsValid y _ (reap_annotation-Unmoved f y.state handle) v
Step-IsValid (annotation_stream_drops y handle) v =
    Unmoved-IsValid y _ (drop_annotation-Unmoved y.state handle) v
Step-IsValid (dispatches y f send seed side name file) v =
    Unmoved-IsValid y _ (dispatch-Unmoved f y.state seed send side name file) v
Step-IsValid (acknowledges y handle activation) v =
    Unmoved-IsValid y _ (complete-Unmoved y.state handle activation) v
Step-IsValid (gives_up y activation) v = Unmoved-IsValid y _ (cleanup-Unmoved y.state activation) v
Step-IsValid (dispatches_mapping y f send seed output map) v =
    Unmoved-IsValid y _ (mapping_dispatch-Unmoved f y.state seed send output map) v
Step-IsValid (acknowledges_mapping y handle activation) v =
    Unmoved-IsValid y _ (mapping_complete-Unmoved y.state handle activation) v
Step-IsValid (gives_up_mapping y activation) v =
    Unmoved-IsValid y _ (mapping_cleanup-Unmoved y.state activation) v

start-IsValid : IsValid start
unfolding start new
start-IsValid = record {
  core = record {
    session_node = λ h e. simp get-empty (ground arith);
    attached = λ h e. simp get-empty (ground arith);
    alive = λ h e. simp get-empty (ground arith);
    node_port = λ h e. simp get-empty (ground arith);
    build_pending = λ h e. simp get-empty (ground arith);
    build_absent = λ h e. simp get-empty (ground arith);
    build_port = λ h e. simp get-empty (ground arith);
    build_once = λ a b c d. simp get-empty (ground arith);
    fresh = λ n le. get-empty (session_handle n);
  };
  index = record {
    named = λ k id. simp get-empty (ground arith);
    owner = λ id r. simp get-empty (ground arith);
    owned = λ h e id. simp get-empty (ground arith);
    fresh = λ n le. get-empty (resource_handle n);
  };
  tracked = record {
    same_seed = λ r a e. simp get-empty (ground arith);
    past = λ r a n. simp get-empty (ground arith);
  };
}

-- Every system that the daemon reaches from its start, through any interleaving of the locked
-- sections of its RPC handlers and callbacks, is valid.
pub Reach-IsValid : {y : System} → Reach start y → IsValid y
Reach-IsValid here = start-IsValid
Reach-IsValid (next r t) = Step-IsValid t (Reach-IsValid r)
