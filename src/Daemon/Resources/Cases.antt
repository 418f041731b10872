-- ===== src/Daemon/Resources/Cases.antt =====
-- The outcomes of the operations on resources and channel mappings, as rules for case analysis.
use nvnmos.Common.{
  ==_iff, nat_Eq, text_Eq, Text, ℕ, ◌≡◌, ◌≢◌, inl, inr, Bool, true, Option, none, some, [], ◌∷◌,
  arith, Bool-cases, Option-cases,
}
use nvnmos.HashMap
use nvnmos.HashMap.{HashMap}
use nvnmos.Wrapper.{Transport}
use nvnmos.Daemon.Status.{Result-cases, Code, Result, internal, ok, err}
use nvnmos.Daemon.Types.{side_Eq, name_key_Eq, seed_key_Eq, Side, ResourceEntry, SessionEntry}
use nvnmos.Daemon.State.{resource_handle, State}
use nvnmos.Daemon.Streams.{is_live, reap_closed_subscription, has_active_subscription}
use nvnmos.Daemon.TransportFile.{transport_file_name}
use nvnmos.Daemon.Resources.{
  server_of, check_name, name_key, find_room, prepare_add_resource, record_resource,
  commit_add_resource, owned_session, forget_resource, remove_resource, AddResourcePrep,
  RemoveResourceFfi, RemoveResourceOutcome, Commit, committed, session_gone,
}

-- A prepared add is one of a session that is open, on its Node, for a name that is not taken, and
-- whose stream is live.
pub record IsPrepared (checking : ℕ → Bool) (s : State) (p : AddResourcePrep) : Type 0 where
  pub session : SessionEntry
  pub known : HashMap.get s.sessions p.session_handle ≡ some session
  pub on_node : p.node_seed ≡ session.node_seed
  pub unused : HashMap.get s.by_name (name_key p.node_seed p.side p.name) ≡ none
  pub server : server_of s p.node_seed ≡ some p.server
  pub live : is_live checking s.subscriptions p.session_handle ≡ true

-- What was asked for goes into the plan, and the transport file carries the name.
pub record IsAsked (tag : Text → Option Text) (side : Side) (handle : Text) (transport : Transport)
    (file name : Text) (p : AddResourcePrep) : Type 0 where
  pub side_kept : p.side ≡ side
  pub handle_kept : p.session_handle ≡ handle
  pub transport_kept : p.transport ≡ transport
  pub file_kept : p.transport_file ≡ file
  pub name_kept : p.name ≡ name
  pub named : name ≢ []
  pub carries : transport_file_name tag transport file ≡ some name

check_name-carries :
    (tag : Text → Option Text) (transport : Transport) (file name : Text) (u : Unit {0})
    → check_name tag transport file name ≡ ok u
    → (name ≢ []) × (transport_file_name tag transport file ≡ some name)
unfolding check_name
check_name-carries tag transport file [] u h = absurd (ground arith)
check_name-carries tag transport file (c ∷ name) u h =
    elim (Option-cases (transport_file_name tag transport file)) [
      | inl q ↦ absurd (ground (arith, q))
      | inr (n, q) ↦ (λ e. absurd (ground arith), ground (arith, q, ==_iff n (c ∷ name)))
    ]

find_room-IsAsked :
    (tag : Text → Option Text) (s : State) (side : Side) (handle : Text) (transport : Transport)
    (file name : Text) (p : AddResourcePrep)
    → (name ≢ []) × (transport_file_name tag transport file ≡ some name)
    → find_room s side handle transport file name ≡ ok p
    → IsAsked tag side handle transport file name p
unfolding find_room
find_room-IsAsked tag s side handle transport file name p (n, c) h =
    elim (Option-cases (HashMap.get s.sessions handle)) [
      | inl q ↦ absurd (ground (arith, q))
      | inr (e, q) ↦ record {
        side_kept = ground arith;
        handle_kept = ground arith;
        transport_kept = ground arith;
        file_kept = ground arith;
        name_kept = ground arith;
        named = n;
        carries = c;
      }
    ]

find_room-IsPrepared :
    (checking : ℕ → Bool) (s : State) (side : Side) (handle : Text) (transport : Transport)
    (file name : Text) (p : AddResourcePrep)
    → is_live checking s.subscriptions handle ≡ true
    → find_room s side handle transport file name ≡ ok p
    → IsPrepared checking s p
unfolding find_room
find_room-IsPrepared checking s side handle transport file name p live h =
    elim (Option-cases (HashMap.get s.sessions handle)) [
      | inl q ↦ absurd (ground (arith, q))
      | inr (e, q) ↦ record {
        session = e;
        known = ground arith;
        on_node = ground arith;
        unused = ground arith;
        server = ground arith;
        live = ground arith;
      }
    ]

-- Whatever `prepare_add_resource` accepts is what was asked for, under a name that is not empty and
-- that the transport file carries. In the state that it leaves the session is open and its stream is
-- live, and the name is not taken on the session's Node, whose server the plan has.
pub prepare_add_resource-IsPrepared :
    (tag : Text → Option Text) (reaping checking : ℕ → Bool) (s : State) (side : Side)
    (handle : Text) (transport : Transport) (file name : Text) (p : AddResourcePrep)
    → (prepare_add_resource tag reaping checking s side handle transport file name).1 ≡ ok p
    → IsAsked tag side handle transport file name p
      × IsPrepared checking
          (prepare_add_resource tag reaping checking s side handle transport file name).0
          p
unfolding prepare_add_resource
prepare_add_resource-IsPrepared tag reaping checking s side handle transport file name p =
    elim (Result-cases (check_name tag transport file name)) [
      | inl (c, q) ↦ rw (q, prepare_add_resource) (λ h. absurd (ground arith))
      | inr (u, q) ↦
          rw (q, prepare_add_resource)
            (elim (Bool-cases (has_active_subscription checking s' handle)) [
              | inl live ↦
                  let carries = check_name-carries tag transport file name u q in
                  rw live (λ h. (
                    find_room-IsAsked tag s' side handle transport file name p carries h,
                    find_room-IsPrepared checking s' side handle transport file name p live h,
                  ))
              | inr quiet ↦ rw quiet (λ h. absurd (ground arith))
            ])
    ]
  where
    s' : State
    s' = reap_closed_subscription reaping s handle

module _ (s : State) (side : Side) (name seed handle : Text) where
  pub commit_add_resource_cases {ℓ} :
      (P : State × Commit Text RemoveResourceFfi → Type ℓ)
      → (HashMap.get s.sessions handle ≡ none
          → P (s, session_gone (record { server = server_of s seed; side = side; name = name })))
      → ((e : SessionEntry)
          → HashMap.get s.sessions handle ≡ some e
          → P (
            record_resource s side name seed handle e,
            committed (resource_handle s.next_resource_id),
          ))
      → P (commit_add_resource s side name seed handle)
  unfolding commit_add_resource
  commit_add_resource_cases P gone there = elim (Option-cases (HashMap.get s.sessions handle)) [
    | inl q ↦ rw (q, commit_add_resource) (gone q)
    | inr (e, q) ↦ rw (q, commit_add_resource) (there e q)
  ]

pub owned_session-eq :
    (s : State) (handle id : Text) (e : SessionEntry)
    → owned_session s handle id ≡ ok e
    → (HashMap.get s.sessions handle ≡ some e) × (HashMap.contains_key e.resources id ≡ true)
unfolding owned_session
owned_session-eq s handle id e h = ground arith

pub remove_resource_cases {ℓ} :
    (s : State) (handle id : Text)
    (P : State × Result (RemoveResourceOutcome × RemoveResourceFfi) → Type ℓ)
    → ((c : Code) → owned_session s handle id ≡ err c → P (s, err c))
    → ((e : SessionEntry)
        → owned_session s handle id ≡ ok e
        → HashMap.get s.resources id ≡ none
        → P (s, err internal))
    → ((e : SessionEntry) (r : ResourceEntry)
        → owned_session s handle id ≡ ok e
        → HashMap.get s.resources id ≡ some r
        → P (
          forget_resource s handle e id r,
          ok (
            record { node_seed = r.node_seed; name = r.name; side = r.side },
            record { server = server_of s r.node_seed; side = r.side; name = r.name },
          ),
        ))
    → P (remove_resource s handle id)
unfolding remove_resource
remove_resource_cases s handle id P refused lost removed =
    elim (Result-cases (owned_session s handle id)) [
      | inl (c, q) ↦ rw (q, remove_resource) (refused c q)
      | inr (e, q) ↦ elim (Option-cases (HashMap.get s.resources id)) [
        | inl l ↦ rw (q, remove_resource) (rw (l, remove_resource) (lost e q l))
        | inr (r, l) ↦ rw (q, remove_resource) (rw (l, remove_resource) (removed e r q l))
      ]
    ]
