-- ===== src/Daemon/Sessions.antt =====
-- Nodes and sessions: `prepare_open_session` to `remove_node` of rust/nvnmosd/src/state.rs.
-- A method returns its result beside the state that it leaves.
pub mod Cases
use nvnmos.Common.{
  ◌==◌, nat_Eq, text_Eq, Text, ℕ, ◌+◌, Bool, true, false, not, none, some, List, [], ◌∷◌,
  if◌then◌else◌, is_some_and,
}
use nvnmos.HashMap
use nvnmos.HashMap.{HashMap}
use nvnmos.Wrapper.{NodeConfig}
use nvnmos.Daemon.Status.{
  Result, invalid_argument, not_found, already_exists, failed_precondition, unavailable, ok, err,
}
use nvnmos.Daemon.Types.{
  side_Eq, name_key_Eq, seed_key_Eq, Lifetime, Side, NodeEntry, SessionEntry, session_refcounted,
  persistent,
}
use nvnmos.Daemon.State.{fetch_add, session_handle, State}
use nvnmos.Daemon.Ports.{resolve_http_port, PortRange}

pub record OpenOutcome : Type 0 where
  pub handle : Text
  pub node_id : Text
  pub device_id : Text
  pub lifetime : Lifetime
  pub created_node : Bool
  pub http_port : ℕ

pub record CloseOutcome : Type 0 where
  pub node_seed : Text
  pub node_id : Text
  pub lifetime : Lifetime
  pub remaining_sessions : ℕ
  pub node_destroyed : Bool

pub record AddNodeOutcome : Type 0 where
  pub node_id : Text
  pub device_id : Text
  pub http_port : ℕ

pub record CreateNodePrep : Type 0 where
  pub seed : Text
  pub config : NodeConfig
  pub http_port : ℕ

pub record CreateNodeReady : Type 0 where
  pub seed : Text
  pub http_port : ℕ
  pub server : ℕ
  pub node_id : Text
  pub device_id : Text

pub data OpenSessionPlan : Type 0 where
  attached : OpenOutcome → OpenSessionPlan
  create : CreateNodePrep → OpenSessionPlan

-- The removals in libnvnmos that `CloseSessionFfi::run` makes after the lock is dropped.
pub record CloseSessionFfi : Type 0 where
  pub server : ℕ
  pub resource_removals : List (Side × Text)
  pub channelmapping_removals : List Text

abbrev pub fresh_session : Text → SessionEntry
fresh_session seed = record {
  node_seed = seed;
  resources = HashMap.empty;
  channelmappings = HashMap.empty;
}

-- `allocate_session_handle` and the insertion of the session.
unfoldable pub open_on : State → Text → State
open_on s seed = record s {
  sessions = HashMap.insert s.sessions (session_handle s.next_session_id) (fresh_session seed);
  next_session_id = fetch_add s.next_session_id;
}

unfoldable pub require_non_empty_seed : Text → Result (Unit {0})
require_non_empty_seed [] = err invalid_argument
require_non_empty_seed (c ∷ seed) = ok tt

-- The branch of `prepare_open_session` for a seed that has a Node.
unfoldable pub attach : State → Text → NodeEntry → State × OpenOutcome
unfolding open_on
attach s seed entry = (
  open_on
      (record s {
        nodes =
            HashMap.insert s.nodes seed
              (record entry { attached_sessions = entry.attached_sessions + 1 });
      })
      seed,
  record {
    handle = session_handle s.next_session_id;
    node_id = entry.node_id;
    device_id = entry.device_id;
    lifetime = entry.lifetime;
    created_node = false;
    http_port = entry.http_port;
  },
)

-- A pending node takes the seed and the port.
unfoldable pub reserve : State → NodeConfig → ℕ → State × CreateNodePrep
reserve s config port = (
  record s {
    http_ports = HashMap.insert s.http_ports port config.seed;
    pending_nodes = HashMap.insert s.pending_nodes config.seed tt;
  },
  record { seed = config.seed; config = record config { http_port = port }; http_port = port },
)

-- `State::prepare_open_session`
unfoldable pub prepare_open_session :
    (ℕ → Bool) → State → NodeConfig → PortRange → State × Result OpenSessionPlan
unfolding require_non_empty_seed attach reserve
prepare_open_session bindable s config range = elim (require_non_empty_seed config.seed) [
  | err c ↦ (s, err c)
  | ok _ ↦ elim (HashMap.get s.nodes config.seed) [
    | some entry ↦ ((attach s config.seed entry).0, ok (attached (attach s config.seed entry).1))
    | none ↦
        if HashMap.contains_key s.pending_nodes config.seed
        then (s, err unavailable)
        else elim (resolve_http_port bindable s config.http_port range) [
          | err c ↦ (s, err c)
          | ok port ↦ ((reserve s config port).0, ok (create (reserve s config port).1))
        ]
  ]
]

-- The new entry of `commit_open_session` and `commit_add_node`.
unfoldable pub commit_node : State → CreateNodeReady → Lifetime → ℕ → State
commit_node s ready lifetime sessions = record s {
  pending_nodes = HashMap.remove s.pending_nodes ready.seed;
  nodes = HashMap.insert s.nodes ready.seed (record {
    server = ready.server;
    node_id = ready.node_id;
    device_id = ready.device_id;
    lifetime = lifetime;
    attached_sessions = sessions;
    http_port = ready.http_port;
  });
}

-- `State::commit_open_session`
unfoldable pub commit_open_session : State → CreateNodeReady → State × OpenOutcome
unfolding commit_node open_on
commit_open_session s ready = (
  open_on (commit_node s ready session_refcounted 1) ready.seed,
  record {
    handle = session_handle s.next_session_id;
    node_id = ready.node_id;
    device_id = ready.device_id;
    lifetime = session_refcounted;
    created_node = true;
    http_port = ready.http_port;
  },
)

-- `State::abort_pending_node`
unfoldable pub abort_pending_node : State → Text → ℕ → State
abort_pending_node s seed port = record s {
  pending_nodes = HashMap.remove s.pending_nodes seed;
  http_ports =
      if is_some_and (HashMap.get s.http_ports port) (λ owner. owner == seed)
      then HashMap.remove s.http_ports port
      else s.http_ports;
}

-- `State::prepare_add_node`
unfoldable pub prepare_add_node :
    (ℕ → Bool) → State → NodeConfig → PortRange → State × Result CreateNodePrep
unfolding require_non_empty_seed reserve
prepare_add_node bindable s config range = elim (require_non_empty_seed config.seed) [
  | err c ↦ (s, err c)
  | ok _ ↦
      if HashMap.contains_key s.nodes config.seed
      then (s, err already_exists)
      else if HashMap.contains_key s.pending_nodes config.seed
      then (s, err already_exists)
      else elim (resolve_http_port bindable s config.http_port range) [
        | err c ↦ (s, err c)
        | ok port ↦ ((reserve s config port).0, ok (reserve s config port).1)
      ]
]

-- `State::commit_add_node`
unfoldable pub commit_add_node : State → CreateNodeReady → State × AddNodeOutcome
unfolding commit_node
commit_add_node s ready = (
  commit_node s ready persistent 0,
  record { node_id = ready.node_id; device_id = ready.device_id; http_port = ready.http_port },
)

abbrev pub is_refcounted : Lifetime → Bool
is_refcounted session_refcounted = true
is_refcounted persistent = false

unfoldable pub discard_node : State → Text → NodeEntry → State
discard_node s seed entry = record s {
  nodes = HashMap.remove s.nodes seed;
  http_ports = HashMap.remove s.http_ports entry.http_port;
}

-- `State::remove_node`; the second part of the result is the server that `RemoveNodeFfi` drops.
unfoldable pub remove_node : State → Text → State × Result (Text × ℕ)
unfolding require_non_empty_seed discard_node
remove_node s seed = elim (require_non_empty_seed seed) [
  | err c ↦ (s, err c)
  | ok _ ↦ elim (HashMap.get s.nodes seed) [
    | none ↦ (s, err not_found)
    | some entry ↦
        if is_refcounted entry.lifetime
        then (s, err failed_precondition)
        else if not (entry.attached_sessions == 0)
        then (s, err failed_precondition)
        else (discard_node s seed entry, ok (entry.node_id, entry.server))
  ]
]
