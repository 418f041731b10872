-- ===== src/Daemon/Tests/Sessions.antt =====
-- Sessions and Nodes on concrete runs.
use nvnmos.Common.{
  ◌==◌, nat_Eq, text_Eq, text_eq, codes, decimal, ℕ, ◌≡◌, refl, ◌↔◌, ◌⊎◌, Bool, true, false, not,
  none, [], ◌∷◌, arith, ltb, if◌then◌else◌, is_some_and,
}
use nvnmos.HashMap
use nvnmos.HashMap.{HashMap}
use nvnmos.Daemon.Types.{side_Eq, name_key_Eq, seed_key_Eq, NodeEntry, session_refcounted, sender}
use nvnmos.Daemon.State.{session_handle, resource_handle, State}
use nvnmos.Daemon.Ports.{resolve_http_port}
use nvnmos.Daemon.Ports.Choice.{IsFree, Allowed, resolve_http_port-IsFree}
use nvnmos.Daemon.Status.{not_found, failed_precondition, ok, err}
use nvnmos.Daemon.Sessions.{
  attach, prepare_open_session, commit_open_session, abort_pending_node, commit_add_node,
  remove_node, CloseOutcome, OpenSessionPlan, CloseSessionFfi,
}
use nvnmos.Daemon.Closing.{close_session}
use nvnmos.Daemon.Nodes.{on}
use nvnmos.Daemon.Streams.{subscribe_activations}
use nvnmos.Daemon.Resources.{prepare_add_resource, commit_add_resource}
use nvnmos.Daemon.TransportFile.{transport_file_name}
use nvnmos.Daemon.Steps.{built, build_of, start}
use nvnmos.Daemon.Steps.Valid.{IsValid}
use nvnmos.Daemon.Steps.Valid.Reachable.{Reach-IsValid}
use nvnmos.Daemon.Tests.Run.{
  seed, range, any_port, prep, begun, opened, built_node, other, first, opened-Reach, sender_name,
  added, added-Reach, added-IsValid,
}
use nvnmos.Daemon.Promises.Close.{
  close_session_answers, close_session_counts, close_session-resources, close_session-Ends, Ends,
}
use nvnmos.Daemon.Promises.Nodes.{remove_node_iff, prepare_open_session_opens, IsIdle, by_port}
use nvnmos.Daemon.Promises.Restore.{
  abort_pending_node-prepare_open_session, close_session-attach, Restored,
}
use nvnmos.Daemon.Promises.Refusals.{serve, serve-Keeps, drop_node}
use nvnmos.Daemon.State.{new}

Reach-IsValid_example : IsValid added
Reach-IsValid_example = Reach-IsValid added-Reach

abbrev first_outcome : CloseOutcome
first_outcome = record {
  node_seed = seed;
  node_id = codes "n";
  lifetime = session_refcounted;
  remaining_sessions = 1;
  node_destroyed = false;
}

abbrev first_ffi : CloseSessionFfi
first_ffi = record {
  server = 7;
  resource_removals = (sender, sender_name) ∷ [];
  channelmapping_removals = [];
}

close_session_counts_example :
    (1 ≡ HashMap.count (on seed) (close_session added.state first).0.sessions)
    × (false ≡ not (HashMap.contains_key (close_session added.state first).0.nodes seed))
    × ((first_outcome.node_destroyed ≡ true)
        ↔ ((first_outcome.lifetime ≡ session_refcounted) × (first_outcome.remaining_sessions ≡ 0)))
unfolding start new prepare_open_session commit_open_session close_session HashMap.get
    HashMap.insert HashMap.remove HashMap.empty HashMap.keys_where HashMap.count resolve_http_port
    text_eq session_handle decimal subscribe_activations prepare_add_resource transport_file_name
    commit_add_resource resource_handle
close_session_counts_example =
    close_session_counts added added-IsValid first first_outcome first_ffi refl

close_session_answers_example :
    ((HashMap.get added.state.sessions first ≡ none)
      × (close_session added.state first ≡ (added.state, err not_found)))
    ⊎ ((HashMap.contains_key added.state.sessions first ≡ true)
        × (o : CloseOutcome × CloseSessionFfi) × ((close_session added.state first).1 ≡ ok o))
close_session_answers_example = close_session_answers added added-IsValid first

close_session-resources_example :
    HashMap.get (close_session added.state first).0.resources (codes "res-0") ≡ (
      if is_some_and
        (HashMap.get added.state.resources (codes "res-0"))
        (λ r. r.session_handle == first)
      then none
      else HashMap.get added.state.resources (codes "res-0"))
unfolding start new prepare_open_session commit_open_session close_session HashMap.get
    HashMap.insert HashMap.remove HashMap.empty HashMap.keys_where HashMap.count resolve_http_port
    text_eq session_handle decimal subscribe_activations prepare_add_resource transport_file_name
    commit_add_resource resource_handle
close_session-resources_example =
    close_session-resources added added-IsValid first (codes "res-0") refl

close_session-Ends_example : Ends first added.state (close_session added.state first).0
unfolding start new prepare_open_session commit_open_session close_session HashMap.get
    HashMap.insert HashMap.remove HashMap.empty HashMap.keys_where HashMap.count resolve_http_port
    text_eq session_handle decimal subscribe_activations prepare_add_resource transport_file_name
    commit_add_resource resource_handle
close_session-Ends_example = close_session-Ends added added-IsValid first refl

close_session-attach_example :
    Restored opened.state
      (close_session
        (attach opened.state seed (built_node 7)).0
        (attach opened.state seed (built_node 7)).1.handle).0
unfolding start new prepare_open_session commit_open_session close_session HashMap.get
    HashMap.insert HashMap.remove HashMap.empty HashMap.keys_where HashMap.count resolve_http_port
    text_eq session_handle decimal subscribe_activations prepare_add_resource transport_file_name
    commit_add_resource resource_handle
close_session-attach_example =
    close_session-attach opened seed (built_node 7) (Reach-IsValid opened-Reach) refl

abort_pending_node-prepare_open_session_example :
    Restored opened.state (
      abort_pending_node
        (prepare_open_session any_port opened.state other range).0
        (codes "b")
        8081)
unfolding start new prepare_open_session commit_open_session close_session HashMap.get
    HashMap.insert HashMap.remove HashMap.empty HashMap.keys_where HashMap.count resolve_http_port
    text_eq session_handle decimal subscribe_activations prepare_add_resource transport_file_name
    commit_add_resource resource_handle
abort_pending_node-prepare_open_session_example =
    abort_pending_node-prepare_open_session any_port opened.state other range
      (record { seed = codes "b"; config = record other { http_port = 8081 }; http_port = 8081 })
      refl

prepare_open_session_opens_example :
    (plan : OpenSessionPlan) × ((prepare_open_session any_port opened.state other range).1
      ≡ ok plan)
unfolding start new prepare_open_session commit_open_session close_session HashMap.get
    HashMap.insert HashMap.remove HashMap.empty HashMap.keys_where HashMap.count resolve_http_port
    text_eq session_handle decimal subscribe_activations prepare_add_resource transport_file_name
    commit_add_resource resource_handle
prepare_open_session_opens_example =
    prepare_open_session_opens any_port opened.state other range (λ q. absurd (ground arith))
      (by_port 8081 refl (refl, refl) (omega arith, omega arith))

resolve_http_port-IsFree_example :
    IsFree any_port opened.state.http_ports 8081 × Allowed 0 range 8081
unfolding start new prepare_open_session commit_open_session close_session HashMap.get
    HashMap.insert HashMap.remove HashMap.empty HashMap.keys_where HashMap.count resolve_http_port
    text_eq session_handle decimal subscribe_activations prepare_add_resource transport_file_name
    commit_add_resource resource_handle
resolve_http_port-IsFree_example = resolve_http_port-IsFree any_port opened.state 0 range 8081 refl

abbrev kept : State
kept = (commit_add_node begun.state (built (build_of prep) 7 (codes "n") (codes "d"))).0

remove_node_iff_example :
    ((remove_node kept seed).1 ≡ ok (codes "n", 7))
    ↔ ((n : NodeEntry) × IsIdle kept seed n × (n.node_id ≡ codes "n") × (n.server ≡ 7))
remove_node_iff_example = remove_node_iff kept seed (codes "n") 7

-- A channel that takes what it has room for.
abbrev pub roomy : ℕ → ℕ → Bool
roomy capacity n = ltb n capacity

serve-Keeps_example : (serve roomy (drop_node seed) opened.state).0 ≡ opened.state
unfolding start new prepare_open_session commit_open_session close_session HashMap.get
    HashMap.insert HashMap.remove HashMap.empty HashMap.keys_where HashMap.count resolve_http_port
    text_eq session_handle decimal subscribe_activations prepare_add_resource transport_file_name
    commit_add_resource resource_handle serve remove_node
serve-Keeps_example =
    serve-Keeps roomy (λ capacity n h. ground (arith, h)) (drop_node seed) opened.state
      failed_precondition refl
