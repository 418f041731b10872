-- ===== src/Daemon/Resources.antt =====
-- Senders and receivers: `prepare_add_resource` to `sync_resource_state` of
-- rust/nvnmosd/src/state.rs. The libnvnmos calls of each method come back as a value, to be made
-- after the lock is dropped.
pub mod Cases
use nvnmos.Common.{
  ◌==◌, nat_Eq, text_Eq, Text, ℕ, Bool, Option, none, some, [], ◌∷◌, if◌then◌else◌, is_some,
}
use nvnmos.HashMap
use nvnmos.HashMap.{HashMap}
use nvnmos.Wrapper.{Transport}
use nvnmos.Daemon.Status.{
  ◌>>=◌, ◌>>◌, ok_or, Result, invalid_argument, not_found, already_exists, failed_precondition,
  internal, ok, err,
}
use nvnmos.Daemon.Types.{
  side_Eq, name_key_Eq, seed_key_Eq, Side, NameKey, ResourceEntry, SessionEntry,
}
use nvnmos.Daemon.State.{fetch_add, session_handle, resource_handle, State}
use nvnmos.Daemon.Streams.{reap_closed_subscription, has_active_subscription}
use nvnmos.Daemon.TransportFile.{transport_file_name}

pub record AddResourcePrep : Type 0 where
  pub server : ℕ
  pub side : Side
  pub transport : Transport
  pub transport_file : Text
  pub name : Text
  pub node_seed : Text
  pub session_handle : Text

-- `RemoveResourceFfi`; no server when the Node has gone.
pub record RemoveResourceFfi : Type 0 where
  pub server : Option ℕ
  pub side : Side
  pub name : Text

pub record RemoveResourceOutcome : Type 0 where
  pub node_seed : Text
  pub name : Text
  pub side : Side

pub record SyncResourceFfi : Type 0 where
  pub server : ℕ
  pub side : Side
  pub name : Text
  pub transport_file : Option Text

pub record SyncResourceStateOutcome : Type 0 where
  pub node_seed : Text
  pub name : Text
  pub side : Side
  pub activated : Bool

-- What a commit returns: its outcome, or `NOT_FOUND` and the removal to make.
pub data Commit (A F : Type 0) : Type 0 where
  committed : A → Commit A F
  session_gone : F → Commit A F

unfoldable pub server_of : State → Text → Option ℕ
server_of s seed = elim (HashMap.get s.nodes seed) [ none ↦ none | some node ↦ some node.server ]

-- The tests on the name that come before any state is read.
unfoldable pub check_name : (Text → Option Text) → Transport → Text → Text → Result (Unit {0})
check_name flow_def_tag transport file [] = err invalid_argument
check_name flow_def_tag transport file (c ∷ name) =
    elim (transport_file_name flow_def_tag transport file) [
      | none ↦ err invalid_argument
      | some embedded ↦ if embedded == c ∷ name then ok tt else err invalid_argument
    ]

abbrev pub name_key : Text → Side → Text → NameKey
name_key seed side name = record { node_seed = seed; side = side; name = name }

-- The lookups of `prepare_add_resource`, which change nothing.
unfoldable pub find_room : State → Side → Text → Transport → Text → Text → Result AddResourcePrep
unfolding server_of
find_room s side handle transport file name = do
  session ← ok_or (HashMap.get s.sessions handle) not_found
  let key = name_key session.node_seed side name
  if HashMap.contains_key s.by_name key then err already_exists else ok tt
  server ← ok_or (server_of s session.node_seed) internal
  ok (record {
    server = server;
    side = side;
    transport = transport;
    transport_file = file;
    name = name;
    node_seed = session.node_seed;
    session_handle = handle;
  })

-- `State::prepare_add_resource`
unfoldable pub prepare_add_resource :
    (Text → Option Text)
    → (reaping checking : ℕ → Bool) → State
    → Side
    → Text
    → Transport
    → Text
    → Text
    → State × Result AddResourcePrep
unfolding check_name reap_closed_subscription has_active_subscription find_room
prepare_add_resource flow_def_tag reaping checking s side handle transport file name =
    elim (check_name flow_def_tag transport file name) [
      | err c ↦ (s, err c)
      | ok _ ↦
          let s' = reap_closed_subscription reaping s handle in
          if has_active_subscription checking s' handle
          then (s', find_room s' side handle transport file name)
          else (s', err failed_precondition)
    ]

-- The insertions of `commit_add_resource`.
unfoldable pub record_resource : State → Side → Text → Text → Text → SessionEntry → State
record_resource s side name seed handle session =
    let id = resource_handle s.next_resource_id in
    record s {
      next_resource_id = fetch_add s.next_resource_id;
      resources =
          HashMap.insert s.resources id
            (record { name = name; node_seed = seed; session_handle = handle; side = side });
      by_name = HashMap.insert s.by_name (name_key seed side name) id;
      sessions =
          HashMap.insert s.sessions handle
            (record session { resources = HashMap.insert session.resources id tt });
    }

-- `State::commit_add_resource`, the common part of `commit_add_sender` and `commit_add_receiver`.
unfoldable pub commit_add_resource :
    State → Side → Text → Text → Text → State × Commit Text RemoveResourceFfi
unfolding record_resource server_of
commit_add_resource s side name seed handle = elim (HashMap.get s.sessions handle) [
  | none ↦ (s, session_gone (record { server = server_of s seed; side = side; name = name }))
  | some session ↦ (
    record_resource s side name seed handle session,
    committed (resource_handle s.next_resource_id),
  )
]

-- The session is known and owns the resource.
unfoldable pub owned_session : State → Text → Text → Result SessionEntry
owned_session s handle resource = do
  session ← ok_or (HashMap.get s.sessions handle) not_found
  if HashMap.contains_key session.resources resource then ok session else err not_found

unfoldable pub forget_resource : State → Text → SessionEntry → Text → ResourceEntry → State
forget_resource s handle session id resource = record s {
  resources = HashMap.remove s.resources id;
  by_name = HashMap.remove s.by_name (name_key resource.node_seed resource.side resource.name);
  sessions =
      HashMap.insert s.sessions handle
        (record session { resources = HashMap.remove session.resources id });
}

-- `State::remove_resource`
unfoldable pub remove_resource :
    State → Text → Text → State × Result (RemoveResourceOutcome × RemoveResourceFfi)
unfolding owned_session forget_resource server_of
remove_resource s handle id = elim (owned_session s handle id) [
  | err c ↦ (s, err c)
  | ok session ↦ elim (HashMap.get s.resources id) [
    | none ↦ (s, err internal)
    | some resource ↦ (
      forget_resource s handle session id resource,
      ok (
        record { node_seed = resource.node_seed; name = resource.name; side = resource.side },
        record {
          server = server_of s resource.node_seed;
          side = resource.side;
          name = resource.name;
        },
      ),
    )
  ]
]

-- `State::sync_resource_state`, which leaves the state as it is.
unfoldable pub sync_resource_state :
    State → Text → Text → Option Text → Result (SyncResourceStateOutcome × SyncResourceFfi)
unfolding owned_session server_of
sync_resource_state s handle id file = do
  _ ← owned_session s handle id
  resource ← ok_or (HashMap.get s.resources id) internal
  server ← ok_or (server_of s resource.node_seed) internal
  ok (
    record {
      node_seed = resource.node_seed;
      name = resource.name;
      side = resource.side;
      activated = is_some file;
    },
    record { server = server; side = resource.side; name = resource.name; transport_file = file },
  )
