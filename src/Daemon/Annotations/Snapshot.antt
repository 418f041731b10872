-- ===== src/Daemon/Annotations/Snapshot.antt =====
-- What a new stream of annotations begins with.
use nvnmos.Common.{
  nat_Eq, text_Eq, Text, ℕ, suc, ◌+◌, ◌≤◌, ◌<◌, ◌≡◌, refl, ◌∙◌, ◌⊎◌, inl, inr, Bool, true, false,
  none, some, List, [], ◌∷◌, arith, ltb, if◌then◌else◌, Bool-cases, Option-cases, length,
}
use nvnmos.HashMap
use nvnmos.HashMap.{HashMap}
use nvnmos.Daemon.Types.{side_Eq, name_key_Eq, seed_key_Eq, SessionEntry}
use nvnmos.Daemon.State.{State}
use nvnmos.Daemon.Status.{Result-cases, Code, not_found, already_exists, ok, err}
use nvnmos.Daemon.Streams.{
  Subscribers, is_live, subscribe_annotations, drop_annotation_subscription,
}
use nvnmos.Daemon.AnnotationStore.{Inner}
use nvnmos.Daemon.Annotations.Messages.{AnnotationEvent}
use nvnmos.Daemon.Annotations.{
  annotation_snapshot, fill_stream, subscription_buffer, begin_stream, open_annotations,
}
use nvnmos.Daemon.Unmoved.{Unmoved}

fill_stream-accepts :
    (accepts : ℕ → Bool) (capacity n : ℕ) (events : List AnnotationEvent)
    → ((k : ℕ) → k < capacity → accepts k ≡ true)
    → n + length events ≤ capacity
    → fill_stream accepts n events ≡ true
unfolding fill_stream
fill_stream-accepts accepts capacity n [] room h = refl
fill_stream-accepts accepts capacity n (e ∷ es) room h =
    rw (room n (omega arith)) (fill_stream-accepts accepts capacity (suc n) es room (omega arith))

-- The snapshot does not look at the streams.
annotation_snapshot-streams :
    (s : State) (m : Subscribers) (handle : Text) (store : Inner)
    → annotation_snapshot (record s { annotation_subscriptions = m }) handle store
      ≡ annotation_snapshot s handle store
unfolding annotation_snapshot
annotation_snapshot-streams s m handle store = refl

annotation_snapshot-open :
    (s : State) (handle : Text) (store : Inner) (e : SessionEntry)
    → HashMap.get s.sessions handle ≡ some e
    → (events : List AnnotationEvent) × (annotation_snapshot s handle store ≡ ok events)
unfolding annotation_snapshot
annotation_snapshot-open s handle store e q =
    elim (Result-cases (annotation_snapshot s handle store)) [
      | inl (c, k) ↦ absurd (ground (arith, q))
      | inr r ↦ r
    ]

annotation_snapshot-closed :
    (s : State) (handle : Text) (store : Inner)
    → HashMap.get s.sessions handle ≡ none
    → annotation_snapshot s handle store ≡ err not_found
unfolding annotation_snapshot
annotation_snapshot-closed s handle store q = ground (arith, q)

module _ (is_closed : ℕ → Bool) (s : State) (handle : Text) (tx : ℕ) where
  subscribe_annotations-closed :
      HashMap.get s.sessions handle ≡ none
      → subscribe_annotations is_closed s handle tx ≡ (s, err not_found)
  unfolding subscribe_annotations
  subscribe_annotations-closed q = ground (arith, q)

  subscribe_annotations-live :
      (e : SessionEntry)
      → HashMap.get s.sessions handle ≡ some e
      → is_live is_closed s.annotation_subscriptions handle ≡ true
      → subscribe_annotations is_closed s handle tx ≡ (s, err already_exists)
  unfolding subscribe_annotations
  subscribe_annotations-live e q l = ground (arith, q, l)

  subscribe_annotations-quiet :
      (e : SessionEntry)
      → HashMap.get s.sessions handle ≡ some e
      → is_live is_closed s.annotation_subscriptions handle ≡ false
      → subscribe_annotations is_closed s handle tx ≡ (
        record s { annotation_subscriptions = HashMap.insert s.annotation_subscriptions handle tx },
        ok tt,
      )
  unfolding subscribe_annotations
  subscribe_annotations-quiet e q l = ground (arith, q, l)

module _ (is_closed : ℕ → Bool) (accepts : ℕ → ℕ → Bool)
    (room : (capacity n : ℕ) → n < capacity → accepts capacity n ≡ true) where
  fits :
      (events : List AnnotationEvent)
      → fill_stream
          (accepts (
            if ltb (length events) subscription_buffer then subscription_buffer else length events))
          0
          events
        ≡ true
  fits events =
      fill_stream-accepts
        (accepts
          (if ltb (length events) subscription_buffer then subscription_buffer else length events))
        (if ltb (length events) subscription_buffer then subscription_buffer else length events) 0
        events
        (room
          (if ltb (length events) subscription_buffer then subscription_buffer else length events))
        (ground arith)

  -- `subscribe_annotations` never answers INTERNAL, as long as the new channel takes as many events as
  -- it has room for: it answers as `State::subscribe_annotations` does, and when that succeeds the
  -- stream begins with the whole snapshot.
  pub open_annotations_answers :
      (s : State) (handle : Text) (tx : ℕ) (store : Inner)
      → let t = subscribe_annotations is_closed s handle tx in
        ((c : Code) × (t.1 ≡ err c)
          × (open_annotations is_closed accepts s handle tx store ≡ (t.0, err c)))
        ⊎ ((events : List AnnotationEvent) × (t.1 ≡ ok tt)
            × (annotation_snapshot s handle store ≡ ok events)
            × (open_annotations is_closed accepts s handle tx store ≡ (t.0, ok events)))
  unfolding open_annotations begin_stream
  open_annotations_answers s handle tx store = elim (Option-cases (HashMap.get s.sessions handle)) [
    | inl q ↦ rw (subscribe_annotations-closed is_closed s handle tx q) (
        inl (
          not_found,
          refl,
          rw (annotation_snapshot-closed s handle store q, open_annotations) refl,
        ))
    | inr (e, q) ↦
        let (events, shot) = annotation_snapshot-open s handle store e q in
        elim (Bool-cases (is_live is_closed s.annotation_subscriptions handle)) [
          | inl l ↦ rw (subscribe_annotations-live is_closed s handle tx e q l) (
              inl (
                already_exists,
                refl,
                rw (shot, open_annotations)
                    (rw (subscribe_annotations-live is_closed s handle tx e q l) refl),
              ))
          | inr l ↦ rw (subscribe_annotations-quiet is_closed s handle tx e q l) (
              inr (
                events,
                refl,
                shot,
                rw (shot, open_annotations)
                    (rw (subscribe_annotations-quiet is_closed s handle tx e q l) (
                      rw
                        (
                          annotation_snapshot-streams s
                                (HashMap.insert s.annotation_subscriptions handle tx) handle store
                              ∙ shot,
                          begin_stream,
                        )
                        (rw (fits events) refl))),
              ))
        ]
  ]

pub open_annotations-Unmoved :
    (is_closed : ℕ → Bool) (accepts : ℕ → ℕ → Bool) (s : State) (handle : Text) (tx : ℕ)
    (store : Inner)
    → Unmoved s (open_annotations is_closed accepts s handle tx store).0
unfolding open_annotations begin_stream subscribe_annotations drop_annotation_subscription
open_annotations-Unmoved is_closed accepts s handle tx store = ground arith
