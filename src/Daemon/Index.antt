-- ===== src/Daemon/Index.antt =====
-- The bookkeeping of senders and receivers: `State::resources`, the sets of the sessions, and the
-- secondary index `State::by_name`.
pub mod Commit
pub mod Drop
use nvnmos.Common.{
  ◌==◌, nat_Eq, text_Eq, Text, ℕ, ◌≤◌, ◌≡◌, Bool, true, ◌&&◌, none, some, is_some_and,
}
use nvnmos.HashMap
use nvnmos.HashMap.{HashMap}
use nvnmos.Daemon.Types.{side_Eq, name_key_Eq, seed_key_Eq, NameKey, ResourceEntry, SessionEntry}
use nvnmos.Daemon.State.{resource_handle, State}
use nvnmos.Daemon.Resources.{name_key}

abbrev pub key_of : ResourceEntry → NameKey
key_of r = name_key r.node_seed r.side r.name

abbrev pub owns : Text → ResourceEntry → SessionEntry → Bool
owns id r e = HashMap.contains_key e.resources id && e.node_seed == r.node_seed

-- An indexed name leads to a resource of that name; a resource has its owner, on its Node, and an
-- owner its resources; no handle to come is in use.
pub record IsIndexed (s : State) : Type 0 where
  pub named :
      (k : NameKey) (id : Text)
      → HashMap.get s.by_name k ≡ some id
      → is_some_and (HashMap.get s.resources id) (λ r. key_of r == k) ≡ true
  pub owner :
      (id : Text) (r : ResourceEntry)
      → HashMap.get s.resources id ≡ some r
      → is_some_and (HashMap.get s.sessions r.session_handle) (owns id r) ≡ true
  pub owned :
      (handle : Text) (e : SessionEntry) (id : Text)
      → HashMap.get s.sessions handle ≡ some e
      → HashMap.contains_key e.resources id ≡ true
      → is_some_and (HashMap.get s.resources id) (λ r. r.session_handle == handle) ≡ true
  pub fresh : (n : ℕ) → s.next_resource_id ≤ n → HashMap.get s.resources (resource_handle n) ≡ none
