-- ===== src/Daemon/Annotations/Delivery.antt =====
-- Every session that may see an annotation, and has a stream, is told of it.
use nvnmos.Common.{
  ◌==◌, ==_iff, nat_Eq, text_Eq, Text, ℕ, ◌≡◌, refl, ap, ◌∙◌, ◌⊎◌, inl, inr, Bool, true, false,
  ◌&&◌, not, Option, none, some, List, [], ◌∷◌, ◌++◌, map, arith, Bool-cases, Option-cases,
  is_some_and, any,
}
use nvnmos.HashMap
use nvnmos.HashMap.{any-keys_where, HashMap}
use nvnmos.Wrapper.{ResourceType, Annotation, AnnotationUpdate}
use nvnmos.Daemon.Types.{side_Eq, name_key_Eq, seed_key_Eq, Side, SessionEntry}
use nvnmos.Daemon.State.{State}
use nvnmos.Daemon.Streams.{is_live}
use nvnmos.Daemon.AnnotationStore.{get_annotation, unwrap_or, Inner}
use nvnmos.Daemon.Annotations.{
  side_of, Queued, send_annotation, resource_recipient, annotation_recipients, send_to_all,
  publish_annotation, Channels,
}
use nvnmos.Daemon.Annotations.Messages.{annotation_event, AnnotationEvent}
use nvnmos.Daemon.Annotations.Publish.{Sees}

abbrev pub Some : {A : Type 0} → (A → Type 0) → List A → Type 0
Some P [] = ⊥
Some P (x ∷ xs) = P x ⊎ Some P xs

Some-left : {A : Type 0} (P : A → Type 0) (xs ys : List A) → Some P xs → Some P (xs ++ ys)
Some-left P [] ys h = absurd h
Some-left P (x ∷ xs) ys (inl p) = inl p
Some-left P (x ∷ xs) ys (inr m) = inr (Some-left P xs ys m)

Some-last : {A : Type 0} (P : A → Type 0) (xs : List A) (x : A) → P x → Some P (xs ++ x ∷ [])
Some-last P [] x p = inl p
Some-last P (y ∷ xs) x p = inr (Some-last P xs x p)

Some-any : (ks : List Text) (j : Text) → any (λ k. k == j) ks ≡ true → Some (λ k. k ≡ j) ks
Some-any [] j h = absurd (ground arith)
Some-any (k ∷ ks) j h = elim (Bool-cases (k == j)) [
  | inl e ↦ inl ((==_iff k j).0 e)
  | inr e ↦ inr (Some-any ks j (ground arith))
]

Some-map :
    {A B : Type 0} (P : B → Type 0) (f : A → B) (xs : List A)
    → Some (λ a. P (f a)) xs
    → Some P (map f xs)
Some-map P f [] h = h
Some-map P f (x ∷ xs) (inl p) = inl p
Some-map P f (x ∷ xs) (inr m) = inr (Some-map P f xs m)

Some-imp :
    {A : Type 0} {P Q : A → Type 0} (xs : List A) → ((a : A) → P a → Q a) → Some P xs → Some Q xs
Some-imp [] f h = h
Some-imp (x ∷ xs) f (inl p) = inl (f x p)
Some-imp (x ∷ xs) f (inr m) = inr (Some-imp xs f m)

-- No receiver has gone, and there is room in every stream.
pub record IsOpen (is_closed : ℕ → Bool) (c : Channels) : Type 0 where
  pub connected : (tx : ℕ) → is_closed tx ≡ false
  pub still_connected : (tx : ℕ) (q : Queued) → c.is_closed tx q ≡ false
  pub room : (tx : ℕ) (q : Queued) → c.try_send tx q ≡ true

module _ (c : Channels) (type : ResourceType) (stored : Option Annotation)
    (P : ℕ × AnnotationEvent → Type 0) where
  send_annotation-Some :
      (t : State) (q : Queued) (handle id : Text)
      → Some P q
      → Some P (send_annotation c (t, q) handle (annotation_event type id stored)).1
  unfolding send_annotation
  send_annotation-Some t q handle id m =
      elim (Option-cases (HashMap.get t.annotation_subscriptions handle)) [
        | inl n ↦ rw (n, send_annotation) m
        | inr (tx, k) ↦ elim (Bool-cases (not (c.is_closed tx q) && c.try_send tx q)) [
          | inl b ↦ rw (k, send_annotation) (rw b (Some-left P q _ m))
          | inr b ↦ rw (k, send_annotation) (rw b m)
        ]
      ]

  send_to_all-Some :
      (t : State) (q : Queued) (rs : List (Text × Text))
      → Some P q
      → Some P (send_to_all c type stored (t, q) rs).1
  unfolding send_to_all
  send_to_all-Some t q [] m = m
  send_to_all-Some t q ((handle, id) ∷ rs) m =
      send_to_all-Some (send_annotation c (t, q) handle (annotation_event type id stored)).0
        (send_annotation c (t, q) handle (annotation_event type id stored)).1 rs
        (send_annotation-Some t q handle id m)

on_node_live :
    (o : Option SessionEntry) (seed : Text) (b : Bool)
    → is_some_and o (λ e. e.node_seed == seed) ≡ true
    → b ≡ true
    → (elim o as (λ _. Bool) [ none ↦ false | some e ↦ e.node_seed == seed && b ]) ≡ true
on_node_live none seed b h l = h
on_node_live (some e) seed b h l = ground arith

module _ (is_closed : ℕ → Bool) (c : Channels) (opened : IsOpen is_closed c) (s : State) where
  send_annotation-open :
      (q : Queued) (handle : Text) (event : AnnotationEvent)
      → (send_annotation c (s, q) handle event) ≡ (
        s,
        elim (HashMap.get s.annotation_subscriptions handle) [
          | none ↦ q
          | some tx ↦ q ++ (tx, event) ∷ []
        ],
      )
  unfolding send_annotation
  send_annotation-open q handle event =
      elim (Option-cases (HashMap.get s.annotation_subscriptions handle)) [
        | inl n ↦ rw (n, send_annotation) refl
        | inr (tx, k) ↦
            rw (k, send_annotation) (rw (opened.still_connected tx q, opened.room tx q) refl)
      ]

  send_to_all-tells :
      (type : ResourceType) (stored : Option Annotation) (handle id : Text) (tx : ℕ)
      → HashMap.get s.annotation_subscriptions handle ≡ some tx
      → (rs : List (Text × Text)) (q : Queued) → Some (λ r. r ≡ (handle, id)) rs
      → Some
          (λ m. m ≡ (tx, annotation_event type id stored))
          (send_to_all c type stored (s, q) rs).1
  unfolding send_to_all
  send_to_all-tells type stored handle id tx k [] q m = absurd m
  send_to_all-tells type stored handle id tx k ((h, i) ∷ rs) q (inl p) =
      send_to_all-Some c type stored (λ m. m ≡ (tx, annotation_event type id stored)) _ _ rs
        (rw (send_annotation-open q h (annotation_event type i stored)) (
          rw (ap (λ (r : Text × Text). HashMap.get s.annotation_subscriptions r.0) p ∙ k) (
            Some-last _ q (tx, annotation_event type i stored)
              (ap (λ (r : Text × Text). (tx, annotation_event type r.1 stored)) p))))
  send_to_all-tells type stored handle id tx k ((h, i) ∷ rs) q (inr m) =
      rw (send_annotation-open q h (annotation_event type i stored), send_to_all)
        (send_to_all-tells type stored handle id tx k rs _ m)

  annotation_recipients-Some :
      (seed : Text) (side : Option Side) (name handle id : Text) (tx : ℕ)
      → HashMap.get s.annotation_subscriptions handle ≡ some tx
      → Sees s seed side name handle id
      → Some (λ r. r ≡ (handle, id)) (annotation_recipients is_closed s seed side name)
  unfolding annotation_recipients resource_recipient is_live
  annotation_recipients-Some seed none name handle id tx k sees =
      let live : is_live is_closed s.annotation_subscriptions handle ≡ true =
        rw (k, is_live) (rw (opened.connected tx) refl) in
      Some-map (λ r. r ≡ (handle, id)) (λ (h : Text). (h, [])) _
        (Some-imp {Q = λ h. (h, []) ≡ (handle, id)} _ (λ h (e : h ≡ handle). rw (e, sees.1) refl)
          (Some-any _ handle (
            any-keys_where
              (λ h (session : SessionEntry).
                session.node_seed == seed && is_live is_closed s.annotation_subscriptions h)
              s.sessions handle
            ∙ on_node_live (HashMap.get s.sessions handle) seed
                (is_live is_closed s.annotation_subscriptions handle) (sees.0) live)))
  annotation_recipients-Some seed (some side) name handle id tx k sees =
      elim (Option-cases (HashMap.get s.resources id)) [
        | inl n ↦ absurd (ground arith)
        | inr (r, g) ↦
            let mine : r.session_handle ≡ handle = ground (arith, ==_iff r.session_handle handle) in
            let live : is_live is_closed s.annotation_subscriptions r.session_handle ≡ true =
              rw mine (rw (k, is_live) (rw (opened.connected tx) refl)) in
            rw (sees.0, resource_recipient)
              (rw (g, resource_recipient) (rw live (inl (ap (λ (h : Text). (h, id)) mine))))
      ]

  -- While every receiver is connected and has room, an update reaches each session that has a stream
  -- and may see what it annotates.
  pub publish_annotation-tells :
      (seed : Text) (update : AnnotationUpdate) (store : Inner) (handle id : Text) (tx : ℕ)
      → Sees s seed (side_of update.resource_type) (unwrap_or [] update.name) handle id
      → HashMap.get s.annotation_subscriptions handle ≡ some tx
      → Some
          (λ m. m ≡ (
            tx,
            annotation_event update.resource_type id
                (get_annotation store seed update.resource_type (unwrap_or [] update.name)),
          ))
          (publish_annotation is_closed c s seed update store).1
  unfolding publish_annotation
  publish_annotation-tells seed update store handle id tx sees k =
      send_to_all-tells update.resource_type
        (get_annotation store seed update.resource_type (unwrap_or [] update.name)) handle id tx k
        (annotation_recipients is_closed s seed (side_of update.resource_type)
          (unwrap_or [] update.name))
        []
        (annotation_recipients-Some seed (side_of update.resource_type) (unwrap_or [] update.name)
          handle id tx k sees)
