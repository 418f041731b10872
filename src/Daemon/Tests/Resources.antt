-- ===== src/Daemon/Tests/Resources.antt =====
-- Senders, streams and activations on concrete runs.
use nvnmos.Common.{nat_Eq, text_Eq, text_eq, codes, decimal, ℕ, ◌≡◌, refl, ◌⊎◌, true, false, some}
use nvnmos.HashMap
use nvnmos.HashMap.{HashMap}
use nvnmos.Wrapper.{rtp}
use nvnmos.Daemon.Types.{side_Eq, name_key_Eq, seed_key_Eq, ResourceEntry, sender}
use nvnmos.Daemon.State.{session_handle, resource_handle, activation_handle, State}
use nvnmos.Daemon.Ports.{resolve_http_port}
use nvnmos.Daemon.Status.{not_found, ok, err}
use nvnmos.Daemon.Sessions.{fresh_session, prepare_open_session, commit_open_session}
use nvnmos.Daemon.Closing.{close_session}
use nvnmos.Daemon.Streams.{subscribe_activations}
use nvnmos.Daemon.Resources.{
  prepare_add_resource, commit_add_resource, remove_resource, RemoveResourceFfi,
  RemoveResourceOutcome,
}
use nvnmos.Daemon.Resources.Cases.{prepare_add_resource-IsPrepared, IsPrepared, IsAsked}
use nvnmos.Daemon.TransportFile.{transport_file_name}
use nvnmos.Daemon.Steps.{start}
use nvnmos.Daemon.Tests.Run.{
  seed, no_port, first, shared, shared-IsValid, listening, sender_name, file, no_tag, adding, added,
  added-IsValid,
}
use nvnmos.Daemon.Activations.{dispatch_activation, complete_activation, Sent, Routed, delivered}
use nvnmos.Daemon.Promises.Resources.{belongs, remove_resource_answers, IsRemoved}
use nvnmos.Daemon.Promises.Undo.{remove_resource-commit_add_resource, Forgotten}
use nvnmos.Daemon.Promises.Acknowledgement.{
  complete_activation_once, complete_activation-dispatch_activation,
}
use nvnmos.Daemon.State.{new}

prepare_add_resource-IsPrepared_example :
    IsAsked no_tag sender first rtp file sender_name adding
    × IsPrepared no_port
        (prepare_add_resource no_tag no_port no_port listening.state sender first rtp file
          sender_name).0
        adding
unfolding start new prepare_open_session commit_open_session close_session HashMap.get
    HashMap.insert HashMap.remove HashMap.empty HashMap.keys_where HashMap.count HashMap.values
    resolve_http_port text_eq session_handle decimal subscribe_activations prepare_add_resource
    transport_file_name commit_add_resource resource_handle
prepare_add_resource-IsPrepared_example =
    prepare_add_resource-IsPrepared no_tag no_port no_port listening.state sender first rtp file
      sender_name adding refl

remove_resource_answers_example :
    ((belongs added.state first (codes "res-0") ≡ false)
      × (remove_resource added.state first (codes "res-0") ≡ (added.state, err not_found)))
    ⊎ ((belongs added.state first (codes "res-0") ≡ true)
        × (o : RemoveResourceOutcome) × (f : RemoveResourceFfi) × ((remove_resource added.state
              first
              (codes "res-0")).1
            ≡ ok (o, f))
        × IsRemoved added.state
            (remove_resource added.state first (codes "res-0")).0
            first
            (codes "res-0")
            o
            f)
remove_resource_answers_example = remove_resource_answers added added-IsValid first (codes "res-0")

remove_resource-commit_add_resource_example :
    Forgotten shared.state
      (remove_resource
        (commit_add_resource shared.state sender sender_name seed first).0
        first
        (resource_handle shared.state.next_resource_id)).0
      first
      (fresh_session seed)
unfolding start new prepare_open_session commit_open_session close_session HashMap.get
    HashMap.insert HashMap.remove HashMap.empty HashMap.keys_where HashMap.count HashMap.values
    resolve_http_port text_eq session_handle decimal subscribe_activations prepare_add_resource
    transport_file_name commit_add_resource resource_handle
remove_resource-commit_add_resource_example =
    remove_resource-commit_add_resource shared sender sender_name seed first (fresh_session seed)
      shared-IsValid refl refl

abbrev deliver : ℕ → Sent
deliver _ = delivered

abbrev activation : Routed
activation = record {
  activation_handle = codes "act-0";
  ack = 0;
  tx = 5;
  event = record {
    resource_handle = codes "res-0";
    activation_handle = codes "act-0";
    transport_file = some file;
    side = sender;
  };
}

abbrev waiting : State
waiting = (dispatch_activation no_port deliver added.state seed sender sender_name (some file)).0

abbrev owned_sender : ResourceEntry
owned_sender = record {
  name = sender_name;
  node_seed = seed;
  session_handle = first;
  side = sender;
}

complete_activation-dispatch_activation_example :
    (complete_activation waiting first (codes "act-0")).1 ≡ ok 0
unfolding start new prepare_open_session commit_open_session close_session HashMap.get
    HashMap.insert HashMap.remove HashMap.empty HashMap.keys_where HashMap.count HashMap.values
    resolve_http_port text_eq session_handle decimal subscribe_activations prepare_add_resource
    transport_file_name commit_add_resource resource_handle dispatch_activation activation_handle
complete_activation-dispatch_activation_example =
    complete_activation-dispatch_activation no_port deliver added.state seed sender sender_name
      (some file) activation (codes "res-0") owned_sender refl refl refl refl

complete_activation_once_example :
    complete_activation (complete_activation waiting first (codes "act-0")).0 first (codes "act-0")
    ≡ ((complete_activation waiting first (codes "act-0")).0, err not_found)
unfolding start new prepare_open_session commit_open_session close_session HashMap.get
    HashMap.insert HashMap.remove HashMap.empty HashMap.keys_where HashMap.count HashMap.values
    resolve_http_port text_eq session_handle decimal subscribe_activations prepare_add_resource
    transport_file_name commit_add_resource resource_handle dispatch_activation activation_handle
    complete_activation
complete_activation_once_example =
    complete_activation_once waiting first first (codes "act-0") 0 refl
