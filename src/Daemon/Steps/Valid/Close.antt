-- ===== src/Daemon/Steps/Valid/Close.antt =====
-- Closing sessions, and adding and removing resources and channel mappings, keep a system valid.
use nvnmos.Common.{
  ◌==◌, ==_iff, nat_Eq, text_Eq, Text, ℕ, ◌+◌, ◌^◌, ◌<◌, ◌≡◌, refl, sym, ap, ◌∙◌, inl, inr, true,
  some, arith, Bool-cases,
}
use nvnmos.HashMap
use nvnmos.HashMap.{get-remove, get-insert, HashMap}
use nvnmos.Daemon.Types.{
  side_Eq, HashSet, name_key_Eq, seed_key_Eq, Side, ResourceEntry, NodeEntry, SessionEntry,
}
use nvnmos.Daemon.State.{resource_handle, State}
use nvnmos.Daemon.Closing.{
  drop_resources, elements, forget_session, forget_channelmapping_stream, detach, closed,
}
use nvnmos.Daemon.Resources.{record_resource, forget_resource, AddResourcePrep}
use nvnmos.Daemon.Nodes.Frame.{undetached, undetached-SameCore, SameCore}
use nvnmos.Daemon.Nodes.Close.{closed-IsConsistent, touch_session-IsConsistent}
use nvnmos.Daemon.Index.Commit.{record_resource-IsIndexed, forget_resource-IsIndexed}
use nvnmos.Daemon.Index.Drop.{drop_channelmappings-SameIndex, close-IsIndexed, SameIndex}
use nvnmos.Daemon.Steps.{System}
use nvnmos.Daemon.Steps.Valid.{IsTracked, IsValid}

-- Sessions that go, or keep their seeds, leave the adds in flight tracked.
retrack_sub :
    (s t : State) (adds : HashMap ℕ AddResourcePrep)
    → ((h : Text) (e : SessionEntry)
        → HashMap.get t.sessions h ≡ some e
        → (e' : SessionEntry) × (HashMap.get s.sessions h ≡ some e') × (e'.node_seed ≡ e.node_seed))
    → t.next_session_id ≡ s.next_session_id
    → IsTracked s adds
    → IsTracked t adds
retrack_sub s t adds sub counter x = record {
  same_seed = λ rpc a e held known.
      let (e', k, q) = sub a.session_handle e known in sym q ∙ x.same_seed rpc a e' held k;
  past = rw counter x.past;
}

detach-sessions :
    (t : State) (seed : Text) (n : NodeEntry) → (detach t seed n).sessions ≡ t.sessions
unfolding detach
detach-sessions t seed n = ground arith

detach-next :
    (t : State) (seed : Text) (n : NodeEntry)
    → (detach t seed n).next_session_id ≡ t.next_session_id
unfolding detach
detach-next t seed n = ground arith

detach-SameIndex :
    (t : State) (seed : Text) (n : NodeEntry) (s : State)
    → SameIndex s t
    → SameIndex s (detach t seed n)
unfolding detach
detach-SameIndex t seed n s f = record {
  resources = ground (arith, f.resources);
  by_name = ground (arith, f.by_name);
  next_resource_id = ground (arith, f.next_resource_id);
}

module _ (y : System) (v : IsValid y) (handle : Text) (e : SessionEntry)
    (known : HashMap.get y.state.sessions handle ≡ some e) where
  -- The sessions of a state in which one session was replaced, its seed kept.
  replaced :
      (e' : SessionEntry)
      → e'.node_seed ≡ e.node_seed
      → (h : Text) (x : SessionEntry)
      → HashMap.get (HashMap.insert y.state.sessions handle e') h ≡ some x
      → (x' : SessionEntry) × (HashMap.get y.state.sessions h ≡ some x')
        × (x'.node_seed ≡ x.node_seed)
  replaced e' q h x held = elim (Bool-cases (handle == h)) [
    | inl same ↦ (
      e,
      ground (arith, known, ==_iff handle h),
      ground (arith, get-insert y.state.sessions handle h e'),
    )
    | inr other ↦ (x, ground (arith, get-insert y.state.sessions handle h e'), refl)
  ]

  pub record_resource-IsValid :
      (adds : HashMap ℕ AddResourcePrep) (side : Side) (name seed : Text)
      → IsTracked y.state adds
      → e.node_seed ≡ seed
      → y.state.next_resource_id + 1 < 2 ^ 64
      → IsValid (record y { state = record_resource y.state side name seed handle e; adds = adds })
  record_resource-IsValid adds side name seed tr on_seed bound =
      let e' = record e {
        resources = HashMap.insert e.resources (resource_handle y.state.next_resource_id) tt;
      } in
      record {
        core = touch_session-IsConsistent y.state _ y.builds handle e e' v.core known refl (
            unfold record_resource in
            record {
              nodes = refl;
              pending_nodes = refl;
              sessions = refl;
              http_ports = refl;
              next_session_id = refl;
            });
        index =
            record_resource-IsIndexed y.state side name seed handle e v.index known on_seed bound;
        tracked = unfold record_resource in retrack_sub y.state _ adds (replaced e' refl) refl tr;
      }

  pub forget_resource-IsValid :
      (id : Text) (r : ResourceEntry)
      → HashMap.contains_key e.resources id ≡ true
      → HashMap.get y.state.resources id ≡ some r
      → IsValid (record y { state = forget_resource y.state handle e id r })
  forget_resource-IsValid id r member there =
      let e' = record e { resources = HashMap.remove e.resources id } in
      record {
        core = touch_session-IsConsistent y.state _ y.builds handle e e' v.core known refl (
            unfold forget_resource in
            record {
              nodes = refl;
              pending_nodes = refl;
              sessions = refl;
              http_ports = refl;
              next_session_id = refl;
            });
        index = forget_resource-IsIndexed y.state handle e id r v.index known member there;
        tracked =
            unfold forget_resource in
            retrack_sub y.state _ y.adds (replaced e' refl) refl v.tracked;
      }

  -- Another set of channel mappings.
  pub remapped-IsValid :
      (t : State) (mappings : HashSet)
      → SameCore
          (record y.state {
            sessions =
                HashMap.insert y.state.sessions handle (record e { channelmappings = mappings });
          })
          t
      → SameIndex y.state t
      → IsValid (record y { state = t })
  remapped-IsValid t mappings f g =
      let e' = record e { channelmappings = mappings } in
      record {
        core = touch_session-IsConsistent y.state t y.builds handle e e' v.core known refl f;
        index = record {
          named = rw (g.by_name, g.resources) v.index.named;
          owner = λ id r.
              rw (g.resources, f.sessions)
                (simp get-insert
                  (ground (arith, v.index.owner id r, known, ==_iff handle r.session_handle)));
          owned = λ h x id.
              rw (g.resources, f.sessions)
                (simp get-insert (
                  ground
                    (arith, v.index.owned h x id, v.index.owned h e id, known, ==_iff handle h)));
          fresh = rw (g.resources, g.next_resource_id) v.index.fresh;
        };
        tracked =
            retrack_sub y.state t y.adds (rw f.sessions (replaced e' refl)) f.next_session_id
              v.tracked;
      }

  pub closed-IsValid :
      (n : NodeEntry)
      → HashMap.get y.state.nodes e.node_seed ≡ some n
      → IsValid (record y { state = closed y.state handle e n })
  closed-IsValid n node = record {
    core = closed-IsConsistent y.state y.builds handle e n v.core known node;
    index = close-IsIndexed y.state _ handle e v.index known gone kept;
    tracked =
        retrack_sub y.state _ y.adds
          (λ h x held. (
            x,
            ground (arith, get-remove y.state.sessions handle h, ap (λ m. HashMap.get m h) gone),
            refl,
          ))
          counter v.tracked;
  }
    where
      t : State
      t = undetached y.state handle e

      gone : (closed y.state handle e n).sessions ≡ HashMap.remove y.state.sessions handle
      gone =
          unfold closed in
          detach-sessions t e.node_seed n
          ∙ (unfold forget_session in (undetached-SameCore y.state handle e).sessions)

      kept :
          SameIndex
            (drop_resources (forget_session y.state handle) (elements e.resources)).0
            (closed y.state handle e n)
      kept =
          let s2 = (drop_resources (forget_session y.state handle) (elements e.resources)).0 in
          let f = drop_channelmappings-SameIndex s2 (elements e.channelmappings) in
          unfold closed forget_channelmapping_stream in
          detach-SameIndex t e.node_seed n s2 (record {
            resources = f.resources;
            by_name = f.by_name;
            next_resource_id = f.next_resource_id;
          })

      counter : (closed y.state handle e n).next_session_id ≡ y.state.next_session_id
      counter =
          unfold closed in
          detach-next t e.node_seed n
          ∙ (unfold forget_session in (undetached-SameCore y.state handle e).next_session_id)
