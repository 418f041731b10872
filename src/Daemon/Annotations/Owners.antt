-- ===== src/Daemon/Annotations/Owners.antt =====
-- Which resources a session may annotate.
use nvnmos.Common.{
  ◌==◌, ==_iff, nat_Eq, text_Eq, Text, ◌≡◌, refl, ◌≢◌, ◌↔◌, inl, inr, false, Option, none, some, [],
  arith, if◌then◌else◌, Bool-cases, Option-cases,
}
use nvnmos.HashMap
use nvnmos.HashMap.{HashMap}
use nvnmos.Wrapper.{ResourceType}
use nvnmos.Daemon.Types.{
  side_Eq, name_key_Eq, seed_key_Eq, Side, ResourceEntry, NodeEntry, SessionEntry,
}
use nvnmos.Daemon.State.{State}
use nvnmos.Daemon.Status.{Result-cases, invalid_argument, not_found, internal, ok, err}
use nvnmos.Daemon.Steps.{System}
use nvnmos.Daemon.Steps.Valid.{IsValid}
use nvnmos.Daemon.Promises.Resources.{belongs}
use nvnmos.Daemon.AnnotationStore.{key_Eq}
use nvnmos.Daemon.Annotations.{
  side_of, owned_resource_name, annotated_name, prepare_annotation_update, AnnotationUpdatePrep,
}

-- The resource that the handle names, or the Node as a whole, which no handle names.
abbrev pub Names : State → Text → Option Side → Text → Option Text → Type 0
Names s handle none id name = (id ≡ []) × (name ≡ none)
Names s handle (some side) id name =
    (r : ResourceEntry) × (HashMap.get s.resources id ≡ some r)
    × (r.session_handle ≡ handle)
    × (r.side ≡ side)
    × (id ≢ [])
    × (name ≡ some r.name)

pub record MayAnnotate (s : State) (handle : Text) (type : ResourceType) (id : Text)
    (p : AnnotationUpdatePrep) : Type 0 where
  pub session : SessionEntry
  pub entry : NodeEntry
  pub there : HashMap.get s.sessions handle ≡ some session
  pub home : HashMap.get s.nodes session.node_seed ≡ some entry
  pub server : p.server ≡ entry.server
  pub type_kept : p.resource_type ≡ type
  pub names : Names s handle (side_of type) id p.name

module _ (y : System) (v : IsValid y) (handle : Text) where
  -- The owner of a resource gets its name, for a type of its side.
  owned_resource_name-owner :
      (id : Text) (side : Side) (e : SessionEntry) (r : ResourceEntry)
      → HashMap.get y.state.sessions handle ≡ some e
      → HashMap.get y.state.resources id ≡ some r
      → r.session_handle ≡ handle
      → owned_resource_name y.state handle id side ≡ (
          if id == []
          then err not_found
          else if r.side == side
          then ok r.name
          else err invalid_argument)
  unfolding owned_resource_name
  owned_resource_name-owner id side e r q k o =
      ground (arith, q, k, v.index.owner id r k, ==_iff r.session_handle handle)

  owned_resource_name-other :
      (id : Text) (side : Side) (e : SessionEntry)
      → HashMap.get y.state.sessions handle ≡ some e
      → belongs y.state handle id ≡ false
      → owned_resource_name y.state handle id side ≡ err not_found
  unfolding owned_resource_name
  owned_resource_name-other id side e q b = ground (arith, q, v.index.owned handle e id q)

  pub owned_resource_name_iff :
      (id : Text) (side : Side) (name : Text) (e : SessionEntry)
      → HashMap.get y.state.sessions handle ≡ some e
      → (owned_resource_name y.state handle id side ≡ ok name) ↔ (
          (r : ResourceEntry) × (HashMap.get y.state.resources id ≡ some r)
          × (r.session_handle ≡ handle)
          × (r.side ≡ side)
          × (id ≢ [])
          × (some name ≡ some r.name))
  owned_resource_name_iff id side name e q = (
    λ h. elim (Bool-cases (belongs y.state handle id)) [
      | inr b ↦ absurd (cc (owned_resource_name-other id side e q b))
      | inl b ↦ elim (Option-cases (HashMap.get y.state.resources id)) [
        | inl k ↦ absurd (ground arith)
        | inr (r, k) ↦
            let o : r.session_handle ≡ handle = ground (arith, ==_iff r.session_handle handle) in
            let w = owned_resource_name-owner id side e r q k o in
            (
              r,
              k,
              o,
              ground (arith, w, ==_iff r.side side, ==_iff id []),
              ground (arith, w, ==_iff id []),
              ground (arith, w, ==_iff id []),
            )
      ]
    ],
    λ (r, k, o, d, i, n).
        ground
          (arith, owned_resource_name-owner id side e r q k o, ==_iff r.side side, ==_iff id []),
  )

  owned_resource_name-internal :
      (id : Text) (side : Side) (e : SessionEntry)
      → HashMap.get y.state.sessions handle ≡ some e
      → owned_resource_name y.state handle id side ≢ err internal
  owned_resource_name-internal id side e q = elim (Bool-cases (belongs y.state handle id)) [
    | inr b ↦ ground (arith, owned_resource_name-other id side e q b)
    | inl b ↦ elim (Option-cases (HashMap.get y.state.resources id)) [
      | inl k ↦ absurd (ground arith)
      | inr (r, k) ↦ ground (
        arith,
        ==_iff r.session_handle handle,
        owned_resource_name-owner id side e r q k (ground (arith, ==_iff r.session_handle handle)),
      )
    ]
  ]

  annotated_name_iff :
      (side : Option Side) (id : Text) (name : Option Text) (e : SessionEntry)
      → HashMap.get y.state.sessions handle ≡ some e
      → (annotated_name y.state handle side id ≡ ok name) ↔ Names y.state handle side id name
  unfolding annotated_name
  annotated_name_iff none id name e q = ground (arith, ==_iff id [])
  annotated_name_iff (some side) id none e q = (
    λ h. elim (Result-cases (owned_resource_name y.state handle id side)) [
      | inl (c, k) ↦ absurd (ground (arith, k))
      | inr (n, k) ↦ absurd (ground (arith, k))
    ],
    λ (r, k, o, d, i, n). absurd (ground arith),
  )
  annotated_name_iff (some side) id (some name) e q = (
    λ h.
        (owned_resource_name_iff id side name e q).0
          (elim (Result-cases (owned_resource_name y.state handle id side)) [
            | inl (c, k) ↦ absurd (ground (arith, k))
            | inr (n, k) ↦ ground (arith, k)
          ]),
    λ m. rw ((owned_resource_name_iff id side name e q).1 m) refl,
  )

  annotated_name-internal :
      (side : Option Side) (id : Text) (e : SessionEntry)
      → HashMap.get y.state.sessions handle ≡ some e
      → annotated_name y.state handle side id ≢ err internal
  unfolding annotated_name
  annotated_name-internal none id e q = ground arith
  annotated_name-internal (some side) id e q =
      ground (arith, owned_resource_name-internal id side e q)

  -- On a valid system, an update is prepared exactly for an open session that names its Node or
  -- Device with no handle, or a resource of its own, on the side of the type, with its handle; it is
  -- for that resource, on the server of the session's Node. The answer is never INTERNAL.
  pub prepare_annotation_update_iff :
      (type : ResourceType) (id : Text) (p : AnnotationUpdatePrep)
      → ((prepare_annotation_update y.state handle type id ≡ ok p)
          ↔ MayAnnotate y.state handle type id p)
        × (prepare_annotation_update y.state handle type id ≢ err internal)
  unfolding prepare_annotation_update
  prepare_annotation_update_iff type id p =
      elim (Option-cases (HashMap.get y.state.sessions handle)) [
        | inl q ↦ (
          (λ h. absurd (ground (arith, q)), λ m. absurd (ground (arith, q, m.there))),
          ground (arith, q),
        )
        | inr (e, q) ↦ elim (Option-cases (HashMap.get y.state.nodes e.node_seed)) [
          | inl k ↦ absurd (ground (arith, v.core.session_node handle e q))
          | inr (n, k) ↦
              let names = annotated_name_iff (side_of type) id p.name e q in
              (
                (
                  λ h. elim (Result-cases (annotated_name y.state handle (side_of type) id)) [
                    | inl (c, a) ↦ absurd (ground (arith, q, k, a))
                    | inr (a', a) ↦ record {
                      session = e;
                      entry = n;
                      there = q;
                      home = k;
                      server = ground (arith, q, k, a);
                      type_kept = ground (arith, q, k, a);
                      names = names.0 (ground (arith, q, k, a));
                    }
                  ],
                  λ m.
                      ground
                        (arith, q, k, m.there, m.home, m.server, m.type_kept, names.1 (m.names)),
                ),
                ground (arith, q, k, annotated_name-internal (side_of type) id e q),
              )
        ]
      ]
