-- ===== src/Daemon/Promises/Resources.antt =====
-- What the operations on senders and receivers of rust/nvnmosd/src/state.rs promise.
use nvnmos.Common.{
  ◌==◌, ==_iff, nat_Eq, text_Eq, Text, ◌≡◌, refl, ◌⊎◌, inl, inr, Bool, true, false, Option, none,
  some, arith, if◌then◌else◌, Bool-cases, Option-cases, is_some_and, is_some,
}
use nvnmos.HashMap
use nvnmos.HashMap.{get-remove, get-insert, HashMap}
use nvnmos.Daemon.Types.{
  side_Eq, HashSet, name_key_Eq, seed_key_Eq, NameKey, ResourceEntry, NodeEntry, SessionEntry,
}
use nvnmos.Daemon.State.{State}
use nvnmos.Daemon.Status.{not_found, ok, err}
use nvnmos.Daemon.Resources.{
  server_of, name_key, owned_session, forget_resource, remove_resource, sync_resource_state,
  RemoveResourceFfi, RemoveResourceOutcome, SyncResourceFfi, SyncResourceStateOutcome,
}
use nvnmos.Daemon.Resources.Cases.{owned_session-eq}
use nvnmos.Daemon.Steps.{System}
use nvnmos.Daemon.Steps.Valid.{IsValid}

-- The resource is there and names the session.
abbrev pub belongs : State → Text → Text → Bool
belongs s handle id = is_some_and (HashMap.get s.resources id) (λ r. r.session_handle == handle)

-- The resource is gone from every lookup, and nothing else is; what is answered, and what libnvnmos is
-- to remove, is that resource, on the server of its Node.
pub record IsRemoved (s t : State) (handle id : Text) (o : RemoveResourceOutcome)
    (f : RemoveResourceFfi) : Type 0 where
  pub resource : ResourceEntry
  pub session : SessionEntry
  pub node : NodeEntry
  pub left : HashSet
  pub there : HashMap.get s.resources id ≡ some resource
  pub known : HashMap.get s.sessions handle ≡ some session
  pub home : HashMap.get s.nodes resource.node_seed ≡ some node
  pub outcome :
      o ≡ record { node_seed = resource.node_seed; name = resource.name; side = resource.side }
  pub removal : f ≡ record { server = some node.server; side = resource.side; name = resource.name }
  pub resources :
      (k : Text) → HashMap.get t.resources k ≡ (if id == k then none else HashMap.get s.resources k)
  pub by_name :
      (k : NameKey)
      → HashMap.get t.by_name k ≡ (
          if name_key resource.node_seed resource.side resource.name == k
          then none
          else HashMap.get s.by_name k)
  pub sessions :
      (h : Text)
      → HashMap.get t.sessions h ≡ (
          if handle == h
          then some (record session { resources = left })
          else HashMap.get s.sessions h)
  pub owned :
      (k : Text) → HashMap.get left k ≡ (if id == k then none else HashMap.get session.resources k)
  pub rest : t ≡ record s { resources = t.resources; by_name = t.by_name; sessions = t.sessions }

forget_resource-IsRemoved :
    (s : State) (handle id : Text) (e : SessionEntry) (r : ResourceEntry) (n : NodeEntry)
    → HashMap.get s.sessions handle ≡ some e
    → HashMap.get s.resources id ≡ some r
    → HashMap.get s.nodes r.node_seed ≡ some n
    → IsRemoved s
        (forget_resource s handle e id r)
        handle
        id
        (record { node_seed = r.node_seed; name = r.name; side = r.side })
        (record { server = server_of s r.node_seed; side = r.side; name = r.name })
unfolding forget_resource server_of
forget_resource-IsRemoved s handle id e r n known there home = record {
  resource = r;
  session = e;
  node = n;
  left = HashMap.remove e.resources id;
  there = there;
  known = known;
  home = home;
  outcome = refl;
  removal = rw (home, server_of) refl;
  resources = get-remove s.resources id;
  by_name = get-remove s.by_name (name_key r.node_seed r.side r.name);
  sessions =
      λ h. get-insert s.sessions handle h (record e { resources = HashMap.remove e.resources id });
  owned = get-remove e.resources id;
  rest = refl;
}

module _ (y : System) (v : IsValid y) (handle id : Text) where
  not_owned : belongs y.state handle id ≡ false → owned_session y.state handle id ≡ err not_found
  unfolding owned_session
  not_owned b = elim (Option-cases (HashMap.get y.state.sessions handle)) [
    | inl q ↦ ground (arith, q)
    | inr (e, q) ↦ ground (arith, v.index.owned handle e id)
  ]

  -- The owner of a resource is on its Node.
  record Owned : Type 0 where
    pub resource : ResourceEntry
    pub session : SessionEntry
    pub node : NodeEntry
    pub there : HashMap.get y.state.resources id ≡ some resource
    pub owner : owned_session y.state handle id ≡ ok session
    pub server : HashMap.get y.state.nodes resource.node_seed ≡ some node

  owned : belongs y.state handle id ≡ true → Owned
  owned b = elim (Option-cases (HashMap.get y.state.resources id)) [
    | inl q ↦ absurd (ground arith)
    | inr (r, q) ↦ elim (Option-cases (HashMap.get y.state.sessions handle)) [
      | inl k ↦ absurd (ground (arith, v.index.owner id r, ==_iff r.session_handle handle))
      | inr (e, k) ↦ elim (Option-cases (HashMap.get y.state.nodes r.node_seed)) [
        | inl m ↦ absurd (
            ground (
              arith,
              v.index.owner id r,
              ==_iff r.session_handle handle,
              v.core.session_node handle e,
              ==_iff e.node_seed r.node_seed,
            ))
        | inr (n, m) ↦ record {
          resource = r;
          session = e;
          node = n;
          there = q;
          owner =
              unfold owned_session in
              ground (arith, v.index.owner id r, ==_iff r.session_handle handle);
          server = m;
        }
      ]
    ]
  ]

  -- On a valid system, the session that owns a resource can remove it: the resource goes from every
  -- lookup and nothing else does, and libnvnmos is to remove it, by its side and name, on the server of
  -- its Node. Any other session gets NOT_FOUND and changes nothing. The answer is never INTERNAL.
  pub remove_resource_answers :
      ((belongs y.state handle id ≡ false)
        × (remove_resource y.state handle id ≡ (y.state, err not_found)))
      ⊎ ((belongs y.state handle id ≡ true)
          × (o : RemoveResourceOutcome) × (f : RemoveResourceFfi) × ((remove_resource y.state handle
                id).1
              ≡ ok (o, f))
          × IsRemoved y.state (remove_resource y.state handle id).0 handle id o f)
  unfolding remove_resource
  remove_resource_answers = elim (Bool-cases (belongs y.state handle id)) [
    | inr b ↦ inl (b, rw (not_owned b, remove_resource) refl)
    | inl b ↦
        let o = owned b in
        let known = (owned_session-eq y.state handle id o.session (o.owner)).0 in
        let done =
          forget_resource-IsRemoved y.state handle id o.session o.resource o.node known (o.there)
            (o.server) in
        inr (
          b,
          record {
            node_seed = o.resource.node_seed;
            name = o.resource.name;
            side = o.resource.side;
          },
          record {
            server = server_of y.state o.resource.node_seed;
            side = o.resource.side;
            name = o.resource.name;
          },
          rw (o.owner, remove_resource) (rw (o.there, remove_resource) refl),
          rw (o.owner, remove_resource) (rw (o.there, remove_resource) done),
        )
  ]

  -- What the activation of a resource comes to, with the server of its Node.
  pub IsSync : Option Text → SyncResourceStateOutcome × SyncResourceFfi → Type 0
  IsSync file (o, f) =
      (HashMap.get y.state.resources id
        ≡ some (record {
          name = o.name;
          node_seed = o.node_seed;
          session_handle = handle;
          side = o.side;
        }))
      × (server_of y.state o.node_seed ≡ some f.server)
      × (f.side ≡ o.side)
      × (f.name ≡ o.name)
      × (f.transport_file ≡ file)
      × (o.activated ≡ is_some file)

  -- On a valid system, the session that owns a resource can activate or deactivate it, under its name
  -- and side and on the server of its Node; any other session gets NOT_FOUND. The answer is never
  -- INTERNAL.
  pub sync_resource_state_answers :
      (file : Option Text)
      → ((belongs y.state handle id ≡ false)
          × (sync_resource_state y.state handle id file ≡ err not_found))
        ⊎ ((o : SyncResourceStateOutcome × SyncResourceFfi) × (sync_resource_state y.state handle id
                file
              ≡ ok o)
            × IsSync file o)
  unfolding sync_resource_state server_of IsSync
  sync_resource_state_answers file = elim (Bool-cases (belongs y.state handle id)) [
    | inr b ↦ inl (b, rw (not_owned b) refl)
    | inl b ↦
        let o = owned b in
        inr (
          (
            record {
              node_seed = o.resource.node_seed;
              name = o.resource.name;
              side = o.resource.side;
              activated = is_some file;
            },
            record {
              server = o.node.server;
              side = o.resource.side;
              name = o.resource.name;
              transport_file = file;
            },
          ),
          rw (o.owner) (rw (o.there) (rw (o.server, server_of) refl)),
          (
            ground (arith, o.there, b, ==_iff o.resource.session_handle handle),
            rw (o.server, server_of) refl,
            refl,
            refl,
            refl,
            refl,
          ),
        )
  ]
