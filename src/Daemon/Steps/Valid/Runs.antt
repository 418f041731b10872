-- ===== src/Daemon/Steps/Valid/Runs.antt =====
-- Closing sessions, and the steps on resources and channel mappings, keep a system valid.
use nvnmos.Common.{
  nat_Eq, text_Eq, Text, ℕ, ◌+◌, ◌^◌, ◌<◌, ◌≡◌, refl, inl, inr, Bool, some, List, arith,
  Option-cases,
}
use nvnmos.HashMap
use nvnmos.HashMap.{get-remove, get-insert, HashMap}
use nvnmos.Daemon.Types.{side_Eq, name_key_Eq, seed_key_Eq, NodeEntry, SessionEntry}
use nvnmos.Daemon.State.{State}
use nvnmos.Daemon.Status.{Result-cases, ok}
use nvnmos.Daemon.Sessions.{discard_node, remove_node}
use nvnmos.Daemon.Sessions.Cases.{remove_node_cases}
use nvnmos.Daemon.Closing.{close_session}
use nvnmos.Daemon.Resources.{commit_add_resource, remove_resource, AddResourcePrep}
use nvnmos.Daemon.Resources.Cases.{
  commit_add_resource_cases, owned_session-eq, remove_resource_cases, IsPrepared,
}
use nvnmos.Daemon.ChannelMappings.{commit_add_channelmapping}
use nvnmos.Daemon.MappingRoutes.{owned_mapping_session, remove_channelmapping}
use nvnmos.Daemon.Nodes.{Builds, IsConsistent}
use nvnmos.Daemon.Nodes.Close.{remove_node-IsConsistent}
use nvnmos.Daemon.Steps.{System}
use nvnmos.Daemon.Steps.Valid.{IsTracked, IsValid}
use nvnmos.Daemon.Steps.Valid.Open.{reindex, retrack}
use nvnmos.Daemon.Steps.Valid.Close.{
  record_resource-IsValid, forget_resource-IsValid, remapped-IsValid, closed-IsValid,
}

pub close_session-IsValid :
    (y : System) (handle : Text)
    → IsValid y
    → IsValid (record y { state = (close_session y.state handle).0 })
unfolding close_session
close_session-IsValid y handle v = elim (Option-cases (HashMap.get y.state.sessions handle)) [
  | inl q ↦ rw (q, close_session) v
  | inr (e, known) ↦ elim (Option-cases (HashMap.get y.state.nodes e.node_seed)) [
    | inl missing ↦ absurd (ground (arith, v.core.session_node handle e known))
    | inr (n, node) ↦
        rw (known, close_session)
          (rw (node, close_session) (closed-IsValid y v handle e known n node))
  ]
]

-- `remove_node` does nothing, or discards an idle Node.
discard_node-IsValid :
    (y : System) (seed : Text) (n : NodeEntry)
    → IsValid y
    → IsConsistent (discard_node y.state seed n) y.builds
    → IsValid (record y { state = discard_node y.state seed n })
discard_node-IsValid y seed n v c = record {
  core = c;
  index = unfold discard_node in reindex y.state _ refl refl refl refl v.index;
  tracked = unfold discard_node in retrack y.state _ y.adds refl refl v.tracked;
}

pub remove_node-IsValid :
    (y : System) (seed : Text)
    → IsValid y
    → IsValid (record y { state = (remove_node y.state seed).0 })
remove_node-IsValid y seed v =
    remove_node_cases y.state seed
      (λ r. IsConsistent r.0 y.builds → IsValid (record y { state = r.0 })) (λ c _. v)
      (λ n _ _ _ k. discard_node-IsValid y seed n v k)
      (remove_node-IsConsistent y.state y.builds seed v.core)

begin_add-IsTracked :
    (s : State) (adds : HashMap ℕ AddResourcePrep) (rpc : ℕ) (prep : AddResourcePrep)
    (e : SessionEntry) (b : Builds)
    → IsTracked s adds
    → IsConsistent s b
    → HashMap.get s.sessions prep.session_handle ≡ some e
    → prep.node_seed ≡ e.node_seed
    → IsTracked s (HashMap.insert adds rpc prep)
begin_add-IsTracked s adds rpc prep e b t c known q = record {
  same_seed = λ r a x. simp get-insert (ground (arith, t.same_seed r a x, known));
  past = λ r a n. simp get-insert (ground (arith, t.past r a n, known, c.fresh n));
}

pub untrack-IsTracked :
    (s : State) (adds : HashMap ℕ AddResourcePrep) (rpc : ℕ)
    → IsTracked s adds
    → IsTracked s (HashMap.remove adds rpc)
untrack-IsTracked s adds rpc t = record {
  same_seed = λ r a x. simp get-remove (ground (arith, t.same_seed r a x));
  past = λ r a n. simp get-remove (ground (arith, t.past r a n));
}

pub commit_add-IsValid :
    (y : System) (rpc : ℕ) (p : AddResourcePrep)
    → IsValid y
    → y.state.next_resource_id + 1 < 2 ^ 64
    → HashMap.get y.adds rpc ≡ some p
    → IsValid (record y {
      state = (commit_add_resource y.state p.side p.name p.node_seed p.session_handle).0;
      adds = HashMap.remove y.adds rpc;
    })
commit_add-IsValid y rpc p v bound held =
    commit_add_resource_cases y.state p.side p.name p.node_seed p.session_handle
      (λ r. IsValid (record y { state = r.0; adds = HashMap.remove y.adds rpc }))
      (λ _. record { core = v.core; index = v.index; tracked = rest })
      (λ e known.
        record_resource-IsValid y v p.session_handle e known (HashMap.remove y.adds rpc) p.side
          p.name p.node_seed rest (v.tracked.same_seed rpc p e held known) bound)
  where
    rest : IsTracked y.state (HashMap.remove y.adds rpc)
    rest = untrack-IsTracked y.state y.adds rpc v.tracked

pub begin_add-IsValid :
    (checking : ℕ → Bool) (y : System) (rpc : ℕ) (p : AddResourcePrep)
    → IsValid y
    → IsPrepared checking y.state p
    → IsValid (record y { adds = HashMap.insert y.adds rpc p })
begin_add-IsValid checking y rpc p v i = record {
  core = v.core;
  index = v.index;
  tracked =
      begin_add-IsTracked y.state y.adds rpc p i.session y.builds v.tracked v.core i.known
        i.on_node;
}

pub remove_resource-IsValid :
    (y : System) (handle id : Text)
    → IsValid y
    → IsValid (record y { state = (remove_resource y.state handle id).0 })
remove_resource-IsValid y handle id v =
    remove_resource_cases y.state handle id (λ r. IsValid (record y { state = r.0 })) (λ _ _. v)
      (λ _ _ _. v)
      (λ e r q l.
        let o = owned_session-eq y.state handle id e q in
        forget_resource-IsValid y v handle e o.0 id r o.1 l)

pub commit_mapping-IsValid :
    (y : System) (name seed handle : Text) (inputs outputs : List Text)
    → IsValid y
    → IsValid
        (record y { state = (commit_add_channelmapping y.state name seed handle inputs outputs).0 })
unfolding commit_add_channelmapping
commit_mapping-IsValid y name seed handle inputs outputs v =
    elim (Option-cases (HashMap.get y.state.sessions handle)) [
      | inl q ↦ rw (q, commit_add_channelmapping) v
      | inr (e, q) ↦
          rw (q, commit_add_channelmapping)
            (remapped-IsValid y v handle e q _ _
              (record {
                nodes = refl;
                pending_nodes = refl;
                sessions = refl;
                http_ports = refl;
                next_session_id = refl;
              })
              (record { resources = refl; by_name = refl; next_resource_id = refl }))
    ]

pub remove_mapping-IsValid :
    (y : System) (handle id : Text)
    → IsValid y
    → IsValid (record y { state = (remove_channelmapping y.state handle id).0 })
unfolding remove_channelmapping
remove_mapping-IsValid y handle id v =
    elim (Result-cases (owned_mapping_session y.state handle id)) [
      | inl (c, q) ↦ rw (q, remove_channelmapping) v
      | inr (e, q) ↦ elim (Option-cases (HashMap.get y.state.channelmappings id)) [
        | inl l ↦ rw (q, remove_channelmapping) (rw (l, remove_channelmapping) v)
        | inr (m, l) ↦
            rw (q, remove_channelmapping)
              (rw (l, remove_channelmapping)
                (remapped-IsValid y v handle e (known e q) _ _
                  (record {
                    nodes = refl;
                    pending_nodes = refl;
                    sessions = refl;
                    http_ports = refl;
                    next_session_id = refl;
                  })
                  (record { resources = refl; by_name = refl; next_resource_id = refl })))
      ]
    ]
  where
    known :
        (e : SessionEntry)
        → owned_mapping_session y.state handle id ≡ ok e
        → HashMap.get y.state.sessions handle ≡ some e
    known e q = unfold owned_mapping_session in ground arith
