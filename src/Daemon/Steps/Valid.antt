-- ===== src/Daemon/Steps/Valid.antt =====
-- Every step of the daemon keeps its bookkeeping consistent, and its index of resources in step.
pub mod Open
pub mod Close
pub mod Runs
pub mod Begin
pub mod Reachable
use nvnmos.Common.{nat_Eq, text_Eq, ℕ, ◌≤◌, ◌≡◌, ◌≢◌, some}
use nvnmos.HashMap
use nvnmos.HashMap.{HashMap}
use nvnmos.Daemon.Types.{side_Eq, name_key_Eq, seed_key_Eq, SessionEntry}
use nvnmos.Daemon.State.{session_handle, State}
use nvnmos.Daemon.Resources.{AddResourcePrep}
use nvnmos.Daemon.Nodes.{IsConsistent}
use nvnmos.Daemon.Index.{IsIndexed}
use nvnmos.Daemon.Steps.{System}

-- An add in flight names the Node of its session, if that is still open, and no session to come.
pub record IsTracked (s : State) (adds : HashMap ℕ AddResourcePrep) : Type 0 where
  pub same_seed :
      (rpc : ℕ) (a : AddResourcePrep) (e : SessionEntry)
      → HashMap.get adds rpc ≡ some a
      → HashMap.get s.sessions a.session_handle ≡ some e
      → e.node_seed ≡ a.node_seed
  pub past :
      (rpc : ℕ) (a : AddResourcePrep) (n : ℕ)
      → HashMap.get adds rpc ≡ some a
      → s.next_session_id ≤ n
      → a.session_handle ≢ session_handle n

pub record IsValid (y : System) : Type 0 where
  pub core : IsConsistent y.state y.builds
  pub index : IsIndexed y.state
  pub tracked : IsTracked y.state y.adds
