-- ===== src/Daemon/Promises/Undo.antt =====
-- Removing a sender or receiver undoes its commit (rust/nvnmosd/src/state.rs).
use nvnmos.Common.{==_iff, ==_refl, nat_Eq, text_Eq, Text, ◌≡◌, refl, ◌≢◌, none, some, arith}
use nvnmos.HashMap
use nvnmos.HashMap.{get-remove, get-insert, HashMap}
use nvnmos.Daemon.Types.{
  side_Eq, HashSet, name_key_Eq, seed_key_Eq, Side, NameKey, ResourceEntry, SessionEntry,
}
use nvnmos.Daemon.State.{resource_handle, State}
use nvnmos.Daemon.Status.{ok}
use nvnmos.Daemon.Resources.{
  name_key, record_resource, commit_add_resource, owned_session, forget_resource, remove_resource,
}
use nvnmos.Daemon.Steps.{System}
use nvnmos.Daemon.Steps.Valid.{IsValid}

-- A resource that is added and then removed leaves no trace in the lookups.
pub record Forgotten (s t : State) (handle : Text) (e : SessionEntry) : Type 0 where
  pub left : HashSet
  pub resources : (id : Text) → HashMap.get t.resources id ≡ HashMap.get s.resources id
  pub by_name : (k : NameKey) → HashMap.get t.by_name k ≡ HashMap.get s.by_name k
  pub others : (h : Text) → handle ≢ h → HashMap.get t.sessions h ≡ HashMap.get s.sessions h
  pub session : HashMap.get t.sessions handle ≡ some (record e { resources = left })
  pub owned : (id : Text) → HashMap.get left id ≡ HashMap.get e.resources id
  pub rest : t ≡ record s {
    resources = t.resources;
    by_name = t.by_name;
    sessions = t.sessions;
    next_resource_id = t.next_resource_id;
  }

module _ (y : System) (side : Side) (name seed handle : Text) (e : SessionEntry) (v : IsValid y)
    (known : HashMap.get y.state.sessions handle ≡ some e)
    (unused : HashMap.get y.state.by_name (name_key seed side name) ≡ none) where
  abbrev new_id : Text
  new_id = resource_handle y.state.next_resource_id

  abbrev entry : ResourceEntry
  entry = record { name = name; node_seed = seed; session_handle = handle; side = side }

  abbrev after : State
  after = record_resource y.state side name seed handle e

  abbrev more : SessionEntry
  more = record e { resources = HashMap.insert e.resources new_id tt }

  there : HashMap.get after.resources new_id ≡ some entry
  unfolding record_resource
  there = ground (arith, get-insert y.state.resources new_id new_id entry, ==_refl new_id)

  owner : owned_session after handle new_id ≡ ok more
  unfolding record_resource owned_session
  owner =
      rw get-insert
        (ground (arith, get-insert e.resources new_id new_id tt, ==_refl new_id, ==_refl handle))

  undone :
      (remove_resource (commit_add_resource y.state side name seed handle).0 handle new_id).0
      ≡ forget_resource after handle more new_id entry
  unfolding commit_add_resource remove_resource
  undone =
      rw (known, commit_add_resource)
        (rw (owner, remove_resource) (rw (there, remove_resource) refl))

  -- On a valid system, a resource that was committed for an open session, under a name that was free,
  -- can be removed by that session, and after that every lookup of a resource, of a name and of a session
  -- answers as before the commit, the session's own entry but for the form of its set of resources,
  -- which has the members that it had; the rest of the state is as it was but for the counter of
  -- resource handles.
  pub remove_resource-commit_add_resource :
      Forgotten y.state
        (remove_resource
          (commit_add_resource y.state side name seed handle).0
          handle
          (resource_handle y.state.next_resource_id)).0
        handle
        e
  unfolding record_resource forget_resource
  remove_resource-commit_add_resource =
      let fresh = v.index.fresh y.state.next_resource_id (omega arith) in
      rw undone (record {
        left = HashMap.remove more.resources new_id;
        rest = refl;
        session = simp get-insert (ground (arith, ==_refl handle));
        resources = λ id. simp (get-remove, get-insert) (ground (arith, fresh, ==_iff new_id id));
        by_name = λ k.
            simp (get-remove, get-insert)
              (ground (arith, unused, ==_iff (name_key seed side name) k));
        others = λ h ne. simp get-insert (ground (arith, ne, ==_iff handle h));
        owned = λ id. ground (
          arith,
          fresh,
          known,
          v.index.owned handle e id,
          ==_iff new_id id,
          get-remove more.resources new_id id,
          get-insert e.resources new_id id tt,
        );
      })
