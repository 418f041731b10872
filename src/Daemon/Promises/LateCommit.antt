-- ===== src/Daemon/Promises/LateCommit.antt =====
-- What `commit_add_resource` of rust/nvnmosd/src/state.rs asks libnvnmos to remove when the session
-- was closed during the add.
use nvnmos.Common.{
  ==_iff, nat_Eq, text_Eq, Text, ◌≡◌, refl, sym, ap, inl, inr, true, none, some, arith,
  Option-cases,
}
use nvnmos.HashMap
use nvnmos.HashMap.{HashMap}
use nvnmos.Daemon.Types.{
  side_Eq, name_key_Eq, seed_key_Eq, NameKey, ResourceEntry, NodeEntry, SessionEntry,
}
use nvnmos.Daemon.State.{State}
use nvnmos.Daemon.Resources.{
  server_of, name_key, commit_add_resource, AddResourcePrep, RemoveResourceFfi, session_gone,
}
use nvnmos.Daemon.Index.{key_of}
use nvnmos.Daemon.Steps.{System}
use nvnmos.Daemon.Steps.Valid.{IsValid}

-- The removal names a resource of a session that is open, on the server of its Node.
pub record Collides (s : State) (id : Text) (f : RemoveResourceFfi) : Type 0 where
  pub resource : ResourceEntry
  pub session : SessionEntry
  pub node : NodeEntry
  pub there : HashMap.get s.resources id ≡ some resource
  pub owner : HashMap.get s.sessions resource.session_handle ≡ some session
  pub owns_it : HashMap.contains_key session.resources id ≡ true
  pub on_node : HashMap.get s.nodes resource.node_seed ≡ some node
  pub server : f.server ≡ some node.server
  pub side : f.side ≡ resource.side
  pub name : f.name ≡ resource.name

-- On a valid system, when the session of an add is closed before the commit, and the seed, side and
-- name of the add have come to name a resource again, the commit changes nothing, and the removal
-- that it asks for is that of this resource, which an open session owns, on the server that the seed
-- has now.
pub commit_add_resource-Collides :
    (y : System) (p : AddResourcePrep) (id : Text)
    → IsValid y
    → HashMap.get y.state.sessions p.session_handle ≡ none
    → HashMap.get y.state.by_name (name_key p.node_seed p.side p.name) ≡ some id
    → (f : RemoveResourceFfi) × (commit_add_resource y.state p.side p.name p.node_seed
          p.session_handle
        ≡ (y.state, session_gone f))
      × Collides y.state id f
unfolding commit_add_resource
commit_add_resource-Collides y p id v gone named =
    (removal, rw (gone, commit_add_resource) refl, collides)
  where
    removal : RemoveResourceFfi
    removal = record { server = server_of y.state p.node_seed; side = p.side; name = p.name }

    collides : Collides y.state id removal
    collides = elim (Option-cases (HashMap.get y.state.resources id)) [
      | inl q ↦ absurd (ground (arith, v.index.named (name_key p.node_seed p.side p.name) id))
      | inr (r, q) ↦ elim (Option-cases (HashMap.get y.state.sessions r.session_handle)) [
        | inl k ↦ absurd (ground (arith, v.index.owner id r))
        | inr (e, k) ↦ elim (Option-cases (HashMap.get y.state.nodes r.node_seed)) [
          | inl m ↦ absurd (
              ground (
                arith,
                v.index.owner id r,
                v.core.session_node r.session_handle e,
                ==_iff e.node_seed r.node_seed,
              ))
          | inr (n, m) ↦
              let same = key (name_key p.node_seed p.side p.name) r q named in
              record {
                resource = r;
                session = e;
                node = n;
                there = q;
                owner = k;
                owns_it = ground (arith, v.index.owner id r);
                on_node = m;
                server = served r n (ap (λ (x : NameKey). x.node_seed) same) m;
                side = cc;
                name = cc;
              }
        ]
      ]
    ]
      where
        served :
            (r : ResourceEntry) (n : NodeEntry)
            → r.node_seed ≡ p.node_seed
            → HashMap.get y.state.nodes r.node_seed ≡ some n
            → removal.server ≡ some n.server
        served r n q m = unfold server_of in rw (sym q) (rw (m, server_of) refl)

        key :
            (k : NameKey) (r : ResourceEntry)
            → HashMap.get y.state.resources id ≡ some r
            → HashMap.get y.state.by_name k ≡ some id
            → key_of r ≡ k
        key k r q h = ground (arith, v.index.named k id, ==_iff (key_of r) k)
