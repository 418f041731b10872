-- ===== src/Daemon/Tests/Run.antt =====
-- A run of the daemon of rust/nvnmosd: two sessions on one Node, a stream and a sender.
use nvnmos.Common.{
  nat_Eq, text_Eq, text_eq, Text, codes, decimal, ℕ, refl, Bool, true, false, Option, none, [],
  arith,
}
use nvnmos.HashMap
use nvnmos.HashMap.{HashMap}
use nvnmos.Wrapper.{NodeConfig, rtp}
use nvnmos.Daemon.Types.{side_Eq, name_key_Eq, seed_key_Eq, NodeEntry, session_refcounted, sender}
use nvnmos.Daemon.State.{session_handle}
use nvnmos.Daemon.Ports.{resolve_http_port, PortRange}
use nvnmos.Daemon.Sessions.{prepare_open_session, commit_open_session, OpenOutcome, CreateNodePrep}
use nvnmos.Daemon.Streams.{subscribe_activations}
use nvnmos.Daemon.Resources.{prepare_add_resource, commit_add_resource, AddResourcePrep}
use nvnmos.Daemon.TransportFile.{transport_file_name}
use nvnmos.Daemon.Steps.{
  built, build_of, start, System, Step, Reach, open_attach, open_begin, open_commit, add_begin,
  add_commit, subscribes, here, next,
}
use nvnmos.Daemon.Steps.Valid.{IsValid}
use nvnmos.Daemon.Steps.Valid.Reachable.{Reach-IsValid}
use nvnmos.Daemon.State.{new}

abbrev pub seed : Text
seed = codes "a"

abbrev pub config : NodeConfig
config = record {
  seed = seed;
  host_name = codes "host";
  host_addresses = [];
  http_port = 0;
  label = [];
  description = [];
  asset_tags = none;
  network_services = none;
  node_annotation = none;
  device_annotation = none;
}

abbrev pub range : PortRange
range = record { min = 8080; max = 8081 }

abbrev pub any_port : ℕ → Bool
any_port _ = true

abbrev pub no_port : ℕ → Bool
no_port _ = false

abbrev pub prep : CreateNodePrep
prep = record { seed = seed; config = record config { http_port = 8080 }; http_port = 8080 }

abbrev pub begun : System
begun = record start {
  state = (prepare_open_session any_port start.state config range).0;
  builds = HashMap.insert start.builds 0 (build_of prep);
}

begins : Step start begun
unfolding start new prepare_open_session HashMap.get HashMap.empty resolve_http_port text_eq
begins = open_begin start 0 any_port config range prep refl refl

abbrev pub opened : System
opened = record begun {
  state = (commit_open_session begun.state (built (build_of prep) 7 (codes "n") (codes "d"))).0;
  builds = HashMap.remove begun.builds 0;
}

opens : Step begun opened
unfolding start new prepare_open_session HashMap.get HashMap.insert HashMap.empty resolve_http_port
    text_eq
opens = open_commit begun 0 (build_of prep) 7 (codes "n") (codes "d") (omega arith) refl

abbrev pub built_node : ℕ → NodeEntry
built_node server = record {
  server = server;
  node_id = codes "n";
  device_id = codes "d";
  lifetime = session_refcounted;
  attached_sessions = 1;
  http_port = 8080;
}

-- Another Node.
abbrev pub other : NodeConfig
other = record config { seed = codes "b" }

abbrev pub first : Text
first = codes "sess-0"

abbrev pub second : Text
second = codes "sess-1"

abbrev pub joined : OpenOutcome
joined = record {
  handle = second;
  node_id = codes "n";
  device_id = codes "d";
  lifetime = session_refcounted;
  created_node = false;
  http_port = 8080;
}

abbrev pub shared : System
shared = record opened { state = (prepare_open_session any_port opened.state config range).0 }

joins : Step opened shared
unfolding start new prepare_open_session commit_open_session HashMap.get HashMap.insert
    HashMap.remove HashMap.empty resolve_http_port text_eq session_handle decimal
joins = open_attach opened any_port config range joined (omega arith) refl

pub opened-Reach : Reach start opened
opened-Reach = next (next here begins) opens

pub shared-Reach : Reach start shared
shared-Reach = next opened-Reach joins

pub shared-IsValid : IsValid shared
shared-IsValid = Reach-IsValid shared-Reach

-- The first session subscribes, on channel 5, and adds the sender "s".
abbrev pub listening : System
listening = record shared { state = (subscribe_activations no_port shared.state first 5).0 }

abbrev pub sender_name : Text
sender_name = codes "s"

abbrev pub file : Text
file = codes "a=x-nvnmos-name:s"

abbrev pub no_tag : Text → Option Text
no_tag _ = none

abbrev pub adding : AddResourcePrep
adding = record {
  server = 7;
  side = sender;
  transport = rtp;
  transport_file = file;
  name = sender_name;
  node_seed = seed;
  session_handle = first;
}

abbrev pub in_flight : System
in_flight = record listening {
  state =
      (prepare_add_resource no_tag no_port no_port listening.state sender first rtp file
        sender_name).0;
  adds = HashMap.insert listening.adds 1 adding;
}

adds : Step listening in_flight
unfolding start new prepare_open_session commit_open_session HashMap.get HashMap.insert
    HashMap.remove HashMap.empty resolve_http_port text_eq session_handle decimal
    subscribe_activations prepare_add_resource transport_file_name
adds =
    add_begin listening 1 no_tag no_port no_port sender first rtp file sender_name adding refl refl

abbrev pub added : System
added = record in_flight {
  state = (commit_add_resource in_flight.state sender sender_name seed first).0;
  adds = HashMap.remove in_flight.adds 1;
}

commits : Step in_flight added
unfolding start new prepare_open_session commit_open_session HashMap.get HashMap.insert
    HashMap.remove HashMap.empty resolve_http_port text_eq session_handle decimal
    subscribe_activations prepare_add_resource transport_file_name
commits = add_commit in_flight 1 adding (omega arith) refl

pub added-Reach : Reach start added
added-Reach = next (next (next shared-Reach (subscribes shared no_port first 5)) adds) commits

pub added-IsValid : IsValid added
added-IsValid = Reach-IsValid added-Reach
