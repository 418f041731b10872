-- ===== src/Daemon/Nodes.antt =====
-- The bookkeeping of Nodes, sessions and ports across the daemon's locked sections (the handlers of
-- rust/nvnmosd/src/main.rs). A build of a NodeServer runs with the lock released, so a system is the
-- state beside the builds that are in flight, each under the number of its RPC.
pub mod Attach
pub mod Builds
pub mod Frame
pub mod Close
use nvnmos.Common.{◌==◌, nat_Eq, text_Eq, Text, ℕ, ◌≤◌, ◌<◌, ◌≡◌, Bool, true, none, some}
use nvnmos.HashMap
use nvnmos.HashMap.{HashMap}
use nvnmos.Daemon.Types.{
  side_Eq, name_key_Eq, seed_key_Eq, NodeEntry, SessionEntry, session_refcounted,
}
use nvnmos.Daemon.State.{session_handle, State}

-- A build between `prepare_…` and its commit or abort.
pub record Build : Type 0 where
  pub seed : Text
  pub http_port : ℕ

abbrev pub Builds : Type 0
Builds = HashMap ℕ Build

-- The session is attached to the Node of the seed.
abbrev pub on : Text → SessionEntry → Bool
on seed session = session.node_seed == seed

-- Every session has its Node; a Node counts its sessions, a refcounted one has some, and each holds
-- its port. A build in flight holds its seed and its port, alone. No handle to come is in use.
pub record IsConsistent (s : State) (builds : Builds) : Type 0 where
  pub session_node :
      (handle : Text) (e : SessionEntry)
      → HashMap.get s.sessions handle ≡ some e
      → HashMap.contains_key s.nodes e.node_seed ≡ true
  pub attached :
      (seed : Text) (n : NodeEntry)
      → HashMap.get s.nodes seed ≡ some n
      → n.attached_sessions ≡ HashMap.count (on seed) s.sessions
  pub alive :
      (seed : Text) (n : NodeEntry)
      → HashMap.get s.nodes seed ≡ some n
      → n.lifetime ≡ session_refcounted
      → 0 < n.attached_sessions
  pub node_port :
      (seed : Text) (n : NodeEntry)
      → HashMap.get s.nodes seed ≡ some n
      → HashMap.get s.http_ports n.http_port ≡ some seed
  pub build_pending :
      (rpc : ℕ) (b : Build)
      → HashMap.get builds rpc ≡ some b
      → HashMap.contains_key s.pending_nodes b.seed ≡ true
  pub build_absent :
      (rpc : ℕ) (b : Build) → HashMap.get builds rpc ≡ some b → HashMap.get s.nodes b.seed ≡ none
  pub build_port :
      (rpc : ℕ) (b : Build)
      → HashMap.get builds rpc ≡ some b
      → HashMap.get s.http_ports b.http_port ≡ some b.seed
  pub build_once :
      (rpc rpc' : ℕ) (b b' : Build)
      → HashMap.get builds rpc ≡ some b
      → HashMap.get builds rpc' ≡ some b'
      → b.seed ≡ b'.seed
      → rpc ≡ rpc'
  pub fresh : (n : ℕ) → s.next_session_id ≤ n → HashMap.get s.sessions (session_handle n) ≡ none
