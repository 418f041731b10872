-- ===== src/Daemon/Annotations/Publish.antt =====
-- Who is told of an annotation.
use nvnmos.Common.{
  ◌==◌, ==_refl, nat_Eq, text_Eq, Text, ℕ, ◌≡◌, refl, ap, inl, inr, Bool, true, ◌&&◌, not, Option,
  none, some, List, [], ◌∷◌, ◌++◌, map, arith, Bool-cases, Option-cases, is_some_and, any,
}
use nvnmos.HashMap
use nvnmos.HashMap.{get-remove, any-keys_where, HashMap}
use nvnmos.Wrapper.{ResourceType, Annotation, AnnotationUpdate}
use nvnmos.Daemon.Types.{side_Eq, name_key_Eq, seed_key_Eq, Side, SessionEntry}
use nvnmos.Daemon.State.{State}
use nvnmos.Daemon.Streams.{is_live, drop_annotation_subscription}
use nvnmos.Daemon.Resources.{name_key}
use nvnmos.Daemon.AnnotationStore.{get_annotation, unwrap_or, Inner}
use nvnmos.Daemon.Annotations.{
  side_of, Queued, send_annotation, resource_recipient, annotation_recipients, send_to_all,
  publish_annotation, Channels,
}
use nvnmos.Daemon.Annotations.Messages.{annotation_event, AnnotationEvent}

abbrev pub Each : {A : Type 0} → (A → Type 0) → List A → Type 0
Each P [] = Unit {0}
Each P (x ∷ xs) = P x × Each P xs

-- The session may see what the name stands for, and knows it by the handle: a Node or Device if it
-- is on the Node, a resource if it is its own.
abbrev pub Sees : State → Text → Option Side → Text → Text → Text → Type 0
Sees s seed none name handle id =
    (is_some_and (HashMap.get s.sessions handle) (λ e. e.node_seed == seed) ≡ true) × (id ≡ [])
Sees s seed (some side) name handle id =
    (HashMap.get s.by_name (name_key seed side name) ≡ some id)
    × (is_some_and (HashMap.get s.resources id) (λ r. r.session_handle == handle) ≡ true)

-- An event of the annotation, on the stream of a session that may see it.
abbrev pub IsTold :
    State → Text → ResourceType → Text → Option Annotation → ℕ × AnnotationEvent → Type 0
IsTold s seed type name stored (tx, event) =
    (handle : Text) × (id : Text) × Sees s seed (side_of type) name handle id
    × (HashMap.get s.annotation_subscriptions handle ≡ some tx)
    × (event ≡ annotation_event type id stored)

-- Only streams of annotations go.
pub record OnlyDrops (s t : State) : Type 0 where
  pub rest : t ≡ record s { annotation_subscriptions = t.annotation_subscriptions }
  pub kept :
      (handle : Text) (tx : ℕ)
      → HashMap.get t.annotation_subscriptions handle ≡ some tx
      → HashMap.get s.annotation_subscriptions handle ≡ some tx

pub OnlyDrops-refl : (s : State) → OnlyDrops s s
OnlyDrops-refl s = record { rest = refl; kept = λ handle tx h. h }

pub OnlyDrops-drop :
    (s t : State) (handle : Text)
    → OnlyDrops s t
    → OnlyDrops s (drop_annotation_subscription t handle)
unfolding drop_annotation_subscription
OnlyDrops-drop s t handle d = record {
  rest =
      ap
        (λ (u : State). record u {
          annotation_subscriptions = HashMap.remove t.annotation_subscriptions handle;
        })
        (d.rest);
  kept = λ j tx h. d.kept j tx (ground (arith, get-remove t.annotation_subscriptions handle j));
}

Each-snoc :
    {A : Type 0} (P : A → Type 0) (xs : List A) (x : A) → Each P xs → P x → Each P (xs ++ x ∷ [])
Each-snoc P [] x e p = (p, tt)
Each-snoc P (y ∷ xs) x e p = (e.0, Each-snoc P xs x e.1 p)

-- What holds of each key that is listed holds of all.
Each-any :
    (P : Text → Type 0) (ks : List Text)
    → ((j : Text) → any (λ k. k == j) ks ≡ true → P j)
    → Each P ks
Each-any P [] h = tt
Each-any P (k ∷ ks) h = (h k (ground (arith, ==_refl k)), Each-any P ks (λ j m. h j (ground arith)))

Each-map :
    {A B : Type 0} (P : B → Type 0) (f : A → B) (xs : List A)
    → Each (λ a. P (f a)) xs
    → Each P (map f xs)
Each-map P f [] e = tt
Each-map P f (x ∷ xs) e = (e.0, Each-map P f xs e.1)

module _ (s : State) (seed : Text) (type : ResourceType) (name : Text)
    (stored : Option Annotation) where
  send_annotation-IsTold :
      (c : Channels) (t : State) (q : Queued) (handle id : Text)
      → OnlyDrops s t
      → Each (IsTold s seed type name stored) q
      → Sees s seed (side_of type) name handle id
      → let y = send_annotation c (t, q) handle (annotation_event type id stored) in
        OnlyDrops s y.0 × Each (IsTold s seed type name stored) y.1
  unfolding send_annotation
  send_annotation-IsTold c t q handle id d told sees =
      elim (Option-cases (HashMap.get t.annotation_subscriptions handle)) [
        | inl n ↦ rw (n, send_annotation) (d, told)
        | inr (tx, k) ↦ elim (Bool-cases (not (c.is_closed tx q) && c.try_send tx q)) [
          | inl b ↦
              rw (k, send_annotation)
                (rw b (d, Each-snoc _ q _ told (handle, id, sees, d.kept handle tx k, refl)))
          | inr b ↦ rw (k, send_annotation) (rw b (OnlyDrops-drop s t handle d, told))
        ]
      ]

  send_to_all-IsTold :
      (c : Channels) (t : State) (q : Queued) (rs : List (Text × Text))
      → OnlyDrops s t
      → Each (IsTold s seed type name stored) q
      → Each (λ r. Sees s seed (side_of type) name r.0 r.1) rs
      → let y = send_to_all c type stored (t, q) rs in
        OnlyDrops s y.0 × Each (IsTold s seed type name stored) y.1
  unfolding send_to_all
  send_to_all-IsTold c t q [] d told all_see = (d, told)
  send_to_all-IsTold c t q ((handle, id) ∷ rs) d told all_see =
      let y = send_annotation-IsTold c t q handle id d told (all_see.0) in
      send_to_all-IsTold c (send_annotation c (t, q) handle (annotation_event type id stored)).0
        (send_annotation c (t, q) handle (annotation_event type id stored)).1 rs y.0 y.1 all_see.1

  resource_recipient-Sees :
      (is_closed : ℕ → Bool) (side : Side)
      → Each
          (λ r. Sees s seed (some side) name r.0 r.1)
          (resource_recipient is_closed s seed side name)
  unfolding resource_recipient
  resource_recipient-Sees is_closed side =
      elim (Option-cases (HashMap.get s.by_name (name_key seed side name))) [
        | inl n ↦ rw (n, resource_recipient) tt
        | inr (id, k) ↦ elim (Option-cases (HashMap.get s.resources id)) [
          | inl n ↦ rw (k, resource_recipient) (rw (n, resource_recipient) tt)
          | inr (r, g) ↦
              elim (Bool-cases (is_live is_closed s.annotation_subscriptions r.session_handle)) [
                | inl l ↦
                    rw (k, resource_recipient)
                      (rw (g, resource_recipient)
                        (rw (l, resource_recipient) ((refl, rw g (==_refl r.session_handle)), tt)))
                | inr l ↦
                    rw (k, resource_recipient)
                      (rw (g, resource_recipient) (rw (l, resource_recipient) tt))
              ]
        ]
      ]

  on_node :
      (is_closed : ℕ → Bool) (j : Text)
      → any
          (λ k. k == j)
          (HashMap.keys_where
            (λ handle session.
              session.node_seed == seed && is_live is_closed s.annotation_subscriptions handle)
            s.sessions)
        ≡ true
      → is_some_and (HashMap.get s.sessions j) (λ e. e.node_seed == seed) ≡ true
  on_node is_closed j m = ground (
    arith,
    any-keys_where
        (λ handle (session : SessionEntry).
          session.node_seed == seed && is_live is_closed s.annotation_subscriptions handle)
        s.sessions j,
  )

  annotation_recipients-Sees :
      (is_closed : ℕ → Bool) (side : Option Side)
      → Each (λ r. Sees s seed side name r.0 r.1) (annotation_recipients is_closed s seed side name)
  unfolding annotation_recipients
  annotation_recipients-Sees is_closed (some side) = resource_recipient-Sees is_closed side
  annotation_recipients-Sees is_closed none =
      Each-map (λ r. Sees s seed none name r.0 r.1) (λ (handle : Text). (handle, [])) _
        (Each-any (λ handle. Sees s seed none name handle []) _
          (λ j m. (on_node is_closed j m, refl)))

module _ (is_closed : ℕ → Bool) (c : Channels) (s : State) (seed : Text) (update : AnnotationUpdate)
    (store : Inner) where
  -- Whatever the channels do, an update is published only to sessions that may see what it annotates,
  -- each under the handle that it knows, with the annotation that the store has now; of the state
  -- only streams of annotations are dropped.
  pub publish_annotation-IsTold :
      OnlyDrops s (publish_annotation is_closed c s seed update store).0
      × Each
          (IsTold s seed update.resource_type
            (unwrap_or [] update.name)
            (get_annotation store seed update.resource_type (unwrap_or [] update.name)))
          (publish_annotation is_closed c s seed update store).1
  unfolding publish_annotation
  publish_annotation-IsTold =
      send_to_all-IsTold s seed update.resource_type (unwrap_or [] update.name)
        (get_annotation store seed update.resource_type (unwrap_or [] update.name)) c s []
        (annotation_recipients is_closed s seed (side_of update.resource_type)
          (unwrap_or [] update.name))
        (OnlyDrops-refl s) tt
        (annotation_recipients-Sees s seed update.resource_type (unwrap_or [] update.name) none
          is_closed (side_of update.resource_type))
