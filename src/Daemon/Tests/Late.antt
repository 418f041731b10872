-- ===== src/Daemon/Tests/Late.antt =====
-- A run of the daemon of rust/nvnmosd in which a session closes while its add is in flight, and
-- another session makes the Node and the sender anew.
use nvnmos.Common.{nat_Eq, text_Eq, text_eq, codes, decimal, ◌≡◌, refl, arith}
use nvnmos.HashMap
use nvnmos.HashMap.{HashMap}
use nvnmos.Wrapper.{rtp}
use nvnmos.Daemon.Types.{side_Eq, name_key_Eq, seed_key_Eq, sender}
use nvnmos.Daemon.State.{session_handle, resource_handle}
use nvnmos.Daemon.Ports.{resolve_http_port}
use nvnmos.Daemon.Sessions.{prepare_open_session, commit_open_session}
use nvnmos.Daemon.Closing.{close_session}
use nvnmos.Daemon.Streams.{subscribe_activations}
use nvnmos.Daemon.Resources.{
  prepare_add_resource, commit_add_resource, AddResourcePrep, RemoveResourceFfi, session_gone,
}
use nvnmos.Daemon.TransportFile.{transport_file_name}
use nvnmos.Daemon.Steps.{
  built, build_of, start, System, Step, Reach, open_begin, open_commit, closes, add_begin,
  add_commit, subscribes, next,
}
use nvnmos.Daemon.Steps.Valid.Reachable.{Reach-IsValid}
use nvnmos.Daemon.Tests.Run.{
  seed, config, range, any_port, no_port, prep, opened, first, second, opened-Reach, sender_name,
  file, no_tag, adding,
}
use nvnmos.Daemon.Promises.LateCommit.{commit_add_resource-Collides, Collides}
use nvnmos.Daemon.State.{new}

abbrev listening1 : System
listening1 = record opened { state = (subscribe_activations no_port opened.state first 5).0 }

abbrev in_flight1 : System
in_flight1 = record listening1 {
  state =
      (prepare_add_resource no_tag no_port no_port listening1.state sender first rtp file
        sender_name).0;
  adds = HashMap.insert listening1.adds 1 adding;
}

adds1 : Step listening1 in_flight1
unfolding start new prepare_open_session commit_open_session close_session HashMap.get
    HashMap.insert HashMap.remove HashMap.empty HashMap.keys_where resolve_http_port text_eq
    session_handle decimal subscribe_activations prepare_add_resource transport_file_name
adds1 =
    add_begin listening1 1 no_tag no_port no_port sender first rtp file sender_name adding refl refl

abbrev closed1 : System
closed1 = record in_flight1 { state = (close_session in_flight1.state first).0 }

abbrev begun2 : System
begun2 = record closed1 {
  state = (prepare_open_session any_port closed1.state config range).0;
  builds = HashMap.insert closed1.builds 2 (build_of prep);
}

begins2 : Step closed1 begun2
unfolding start new prepare_open_session commit_open_session close_session HashMap.get
    HashMap.insert HashMap.remove HashMap.empty HashMap.keys_where resolve_http_port text_eq
    session_handle decimal subscribe_activations prepare_add_resource transport_file_name
begins2 = open_begin closed1 2 any_port config range prep refl refl

abbrev opened2 : System
opened2 = record begun2 {
  state = (commit_open_session begun2.state (built (build_of prep) 9 (codes "n") (codes "d"))).0;
  builds = HashMap.remove begun2.builds 2;
}

opens2 : Step begun2 opened2
unfolding start new prepare_open_session commit_open_session close_session HashMap.get
    HashMap.insert HashMap.remove HashMap.empty HashMap.keys_where resolve_http_port text_eq
    session_handle decimal subscribe_activations prepare_add_resource transport_file_name
opens2 = open_commit begun2 2 (build_of prep) 9 (codes "n") (codes "d") (omega arith) refl

abbrev listening2 : System
listening2 = record opened2 { state = (subscribe_activations no_port opened2.state second 6).0 }

abbrev adding2 : AddResourcePrep
adding2 = record adding { server = 9; session_handle = second }

abbrev in_flight2 : System
in_flight2 = record listening2 {
  state =
      (prepare_add_resource no_tag no_port no_port listening2.state sender second rtp file
        sender_name).0;
  adds = HashMap.insert listening2.adds 3 adding2;
}

adds2 : Step listening2 in_flight2
unfolding start new prepare_open_session commit_open_session close_session HashMap.get
    HashMap.insert HashMap.remove HashMap.empty HashMap.keys_where resolve_http_port text_eq
    session_handle decimal subscribe_activations prepare_add_resource transport_file_name
adds2 =
    add_begin listening2 3 no_tag no_port no_port sender second rtp file sender_name adding2 refl
      refl

abbrev added2 : System
added2 = record in_flight2 {
  state = (commit_add_resource in_flight2.state sender sender_name seed second).0;
  adds = HashMap.remove in_flight2.adds 3;
}

commits2 : Step in_flight2 added2
unfolding start new prepare_open_session commit_open_session close_session HashMap.get
    HashMap.insert HashMap.remove HashMap.empty HashMap.keys_where resolve_http_port text_eq
    session_handle decimal subscribe_activations prepare_add_resource transport_file_name
commits2 = add_commit in_flight2 3 adding2 (omega arith) refl

to_opened2 : Reach start opened2
to_opened2 =
    next
      (next
        (next (next (next opened-Reach (subscribes opened no_port first 5)) adds1)
          (closes in_flight1 first))
        begins2)
      opens2

added2-Reach : Reach start added2
added2-Reach = next (next (next to_opened2 (subscribes opened2 no_port second 6)) adds2) commits2

-- The add of the first session is still in flight, for server 7, and its session is gone; the removal
-- that its commit asks for is that of the second session's sender, on server 9.
commit_add_resource-Collides_example :
    (f : RemoveResourceFfi) × (commit_add_resource added2.state sender sender_name seed first
      ≡ (added2.state, session_gone f))
    × Collides added2.state (codes "res-0") f
unfolding start new prepare_open_session commit_open_session close_session HashMap.get
    HashMap.insert HashMap.remove HashMap.empty HashMap.keys_where resolve_http_port text_eq
    session_handle decimal subscribe_activations prepare_add_resource transport_file_name
    commit_add_resource resource_handle
commit_add_resource-Collides_example =
    commit_add_resource-Collides added2 adding (codes "res-0") (Reach-IsValid added2-Reach) refl
      refl
