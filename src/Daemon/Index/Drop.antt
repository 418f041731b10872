-- ===== src/Daemon/Index/Drop.antt =====
-- Closing a session drops its resources, and no other, and keeps the index in step.
use nvnmos.Common.{
  ◌==◌, ==_iff, nat_Eq, text_Eq, Text, ◌≡◌, refl, inl, inr, true, none, some, List, [], ◌∷◌, arith,
  if◌then◌else◌, Option-cases, is_some_and, any,
}
use nvnmos.HashMap
use nvnmos.HashMap.{get-remove, any-keys_where, HashMap}
use nvnmos.Daemon.Types.{side_Eq, name_key_Eq, seed_key_Eq, NameKey, ResourceEntry, SessionEntry}
use nvnmos.Daemon.State.{State}
use nvnmos.Daemon.Closing.{
  drop_resource, drop_resources, elements, drop_channelmapping, drop_channelmappings,
  forget_session,
}
use nvnmos.Daemon.Index.{key_of, IsIndexed}

-- The resources that `drop_resources` leaves are those not listed.
pub get-drop_resources :
    (s : State) (handles : List Text) (id : Text)
    → HashMap.get (drop_resources s handles).0.resources id
      ≡ (if any (λ h. h == id) handles then none else HashMap.get s.resources id)
unfolding drop_resources
get-drop_resources s [] id = refl
get-drop_resources s (h ∷ hs) id = elim (Option-cases (HashMap.get s.resources h)) [
  | inl e ↦ rw (e, drop_resources) (ground (arith, get-drop_resources s hs id, e, ==_iff h id))
  | inr (r, e) ↦
      rw (e, drop_resources)
        (ground
          (arith, get-drop_resources (drop_resource s h r) hs id, get-remove s.resources h id))
]

-- The part of the index that needs no sessions.
abbrev IsNamed : State → Type 0
IsNamed s =
    (k : NameKey) (id : Text)
    → HashMap.get s.by_name k ≡ some id
    → is_some_and (HashMap.get s.resources id) (λ r. key_of r == k) ≡ true

drop_resource-IsNamed :
    (s : State) (id : Text) (r : ResourceEntry)
    → IsNamed s
    → HashMap.get s.resources id ≡ some r
    → IsNamed (drop_resource s id r)
unfolding drop_resource
drop_resource-IsNamed s id r x there k i =
    simp get-remove (ground (arith, x k i, ==_iff (key_of r) k, ==_iff id i))

drop_resources-IsNamed :
    (s : State) (handles : List Text) → IsNamed s → IsNamed (drop_resources s handles).0
unfolding drop_resources
drop_resources-IsNamed s [] x = x
drop_resources-IsNamed s (h ∷ hs) x = elim (Option-cases (HashMap.get s.resources h)) [
  | inl e ↦ rw (e, drop_resources) (drop_resources-IsNamed s hs x)
  | inr (r, e) ↦
      rw (e, drop_resources)
        (drop_resources-IsNamed (drop_resource s h r) hs (drop_resource-IsNamed s h r x e))
]

-- What the index rests on beside the sessions.
pub record SameIndex (s t : State) : Type 0 where
  pub resources : t.resources ≡ s.resources
  pub by_name : t.by_name ≡ s.by_name
  pub next_resource_id : t.next_resource_id ≡ s.next_resource_id

pub drop_channelmappings-SameIndex :
    (s : State) (handles : List Text) → SameIndex s (drop_channelmappings s handles).0
unfolding drop_channelmappings
drop_channelmappings-SameIndex s [] = record {
  resources = refl;
  by_name = refl;
  next_resource_id = refl;
}
drop_channelmappings-SameIndex s (h ∷ hs) = elim (Option-cases (HashMap.get s.channelmappings h)) [
  | inl e ↦ rw (e, drop_channelmappings) (drop_channelmappings-SameIndex s hs)
  | inr (m, e) ↦
      rw (e, drop_channelmappings)
        (let f = drop_channelmappings-SameIndex (drop_channelmapping s h m) hs in
          record {
            resources = f.resources;
            by_name = f.by_name;
            next_resource_id = f.next_resource_id;
          })
]

drop_resources-next :
    (s : State) (handles : List Text)
    → (drop_resources s handles).0.next_resource_id ≡ s.next_resource_id
unfolding drop_resources
drop_resources-next s [] = refl
drop_resources-next s (h ∷ hs) = elim (Option-cases (HashMap.get s.resources h)) [
  | inl e ↦ rw (e, drop_resources) (drop_resources-next s hs)
  | inr (r, e) ↦ rw (e, drop_resources) (drop_resources-next (drop_resource s h r) hs)
]

-- No two sessions own one resource.
pub owned_once :
    (s : State) (h h' : Text) (e e' : SessionEntry) (id : Text)
    → IsIndexed s
    → HashMap.get s.sessions h ≡ some e
    → HashMap.contains_key e.resources id ≡ true
    → HashMap.get s.sessions h' ≡ some e'
    → HashMap.contains_key e'.resources id ≡ true
    → h ≡ h'
owned_once s h h' e e' id x k m k' m' = elim (Option-cases (HashMap.get s.resources id)) [
  | inl q ↦ absurd (ground (arith, x.owned h e id))
  | inr (r, q) ↦ ground (
    arith,
    x.owned h e id,
    x.owned h' e' id,
    ==_iff r.session_handle h,
    ==_iff r.session_handle h',
  )
]

-- Once a session and the resources that it owns are gone, the rest is in step.
module _ (s t : State) (handle : Text) (e : SessionEntry) (x : IsIndexed s)
    (known : HashMap.get s.sessions handle ≡ some e)
    (gone : t.sessions ≡ HashMap.remove s.sessions handle)
    (f : SameIndex (drop_resources (forget_session s handle) (elements e.resources)).0 t) where
  listed :
      (id : Text) → any (λ h. h == id) (elements e.resources) ≡ HashMap.contains_key e.resources id
  listed id = ground (arith, any-keys_where (λ _ _. true) e.resources id)

  left :
      (id : Text)
      → HashMap.get t.resources id
        ≡ (if HashMap.contains_key e.resources id then none else HashMap.get s.resources id)
  unfolding forget_session
  left id = rw f.resources (
      ground
        (arith, get-drop_resources (forget_session s handle) (elements e.resources) id, listed id))

  pub close-IsIndexed : IsIndexed t
  unfolding forget_session
  close-IsIndexed = record {
    named = λ k i.
        rw (f.by_name, f.resources)
          (drop_resources-IsNamed (forget_session s handle) (elements e.resources) x.named k i);
    owner = λ i r.
        rw (left, gone)
          (simp get-remove (ground (arith, x.owner i r, known, ==_iff handle r.session_handle)));
    owned = λ h e' i.
        rw (left, gone)
          (simp get-remove (
            ground
              (arith, x.owned h e' i, owned_once s handle h e e' i x, known, ==_iff handle h)));
    fresh = λ n. rw (left, f.next_resource_id, drop_resources-next) (ground (arith, x.fresh n));
  }
