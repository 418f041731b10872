-- ===== src/Daemon/Annotations/Frame.antt =====
-- Publishing an annotation leaves the bookkeeping alone.
use nvnmos.Common.{
  nat_Eq, text_Eq, Text, ℕ, ap, inl, inr, Bool, ◌&&◌, not, List, [], ◌∷◌, Bool-cases, Option-cases,
}
use nvnmos.HashMap
use nvnmos.HashMap.{HashMap}
use nvnmos.Wrapper.{AnnotationUpdate}
use nvnmos.Daemon.Types.{side_Eq, name_key_Eq, seed_key_Eq}
use nvnmos.Daemon.State.{State}
use nvnmos.Daemon.Streams.{is_live}
use nvnmos.Daemon.AnnotationStore.{Inner}
use nvnmos.Daemon.Unmoved.{Unmoved}
use nvnmos.Daemon.Annotations.{
  resource_types_for_side, events_of, Queued, send_annotation, publish_annotation, send_each,
  emit_added_resource, Channels,
}
use nvnmos.Daemon.Annotations.Messages.{AnnotationEvent}
use nvnmos.Daemon.Annotations.Publish.{
  OnlyDrops-refl, OnlyDrops-drop, publish_annotation-IsTold, OnlyDrops,
}

send_annotation-OnlyDrops :
    (c : Channels) (s t : State) (q : Queued) (handle : Text) (event : AnnotationEvent)
    → OnlyDrops s t
    → OnlyDrops s (send_annotation c (t, q) handle event).0
unfolding send_annotation
send_annotation-OnlyDrops c s t q handle event d =
    elim (Option-cases (HashMap.get t.annotation_subscriptions handle)) [
      | inl n ↦ rw (n, send_annotation) d
      | inr (tx, k) ↦ elim (Bool-cases (not (c.is_closed tx q) && c.try_send tx q)) [
        | inl b ↦ rw (k, send_annotation) (rw b d)
        | inr b ↦ rw (k, send_annotation) (rw b (OnlyDrops-drop s t handle d))
      ]
    ]

send_each-OnlyDrops :
    (c : Channels) (s t : State) (q : Queued) (handle : Text) (events : List AnnotationEvent)
    → OnlyDrops s t
    → OnlyDrops s (send_each c handle (t, q) events).0
unfolding send_each
send_each-OnlyDrops c s t q handle [] d = d
send_each-OnlyDrops c s t q handle (e ∷ es) d =
    send_each-OnlyDrops c s (send_annotation c (t, q) handle e).0
      (send_annotation c (t, q) handle e).1 handle es (send_annotation-OnlyDrops c s t q handle e d)

emit_added_resource-OnlyDrops :
    (is_closed : ℕ → Bool) (c : Channels) (s : State) (id : Text) (store : Inner)
    → OnlyDrops s (emit_added_resource is_closed c s id store).0
unfolding emit_added_resource
emit_added_resource-OnlyDrops is_closed c s id store =
    elim (Option-cases (HashMap.get s.resources id)) [
      | inl n ↦ rw (n, emit_added_resource) (OnlyDrops-refl s)
      | inr (r, k) ↦
          elim (Bool-cases (is_live is_closed s.annotation_subscriptions r.session_handle)) [
            | inl l ↦
                rw (k, emit_added_resource)
                  (rw l (
                    send_each-OnlyDrops c s s [] r.session_handle
                      (events_of store r.node_seed id r.name (resource_types_for_side r.side))
                      (OnlyDrops-refl s)))
            | inr l ↦ rw (k, emit_added_resource) (rw l (OnlyDrops-refl s))
          ]
    ]

OnlyDrops-Unmoved : (s t : State) → OnlyDrops s t → Unmoved s t
OnlyDrops-Unmoved s t d = record {
  nodes = ap (λ (u : State). u.nodes) (d.rest);
  pending_nodes = ap (λ (u : State). u.pending_nodes) (d.rest);
  sessions = ap (λ (u : State). u.sessions) (d.rest);
  http_ports = ap (λ (u : State). u.http_ports) (d.rest);
  next_session_id = ap (λ (u : State). u.next_session_id) (d.rest);
  resources = ap (λ (u : State). u.resources) (d.rest);
  by_name = ap (λ (u : State). u.by_name) (d.rest);
  next_resource_id = ap (λ (u : State). u.next_resource_id) (d.rest);
}

pub emit_added_resource-Unmoved :
    (is_closed : ℕ → Bool) (c : Channels) (s : State) (id : Text) (store : Inner)
    → Unmoved s (emit_added_resource is_closed c s id store).0
emit_added_resource-Unmoved is_closed c s id store =
    OnlyDrops-Unmoved s _ (emit_added_resource-OnlyDrops is_closed c s id store)

pub publish_annotation-Unmoved :
    (is_closed : ℕ → Bool) (c : Channels) (s : State) (seed : Text) (update : AnnotationUpdate)
    (store : Inner)
    → Unmoved s (publish_annotation is_closed c s seed update store).0
publish_annotation-Unmoved is_closed c s seed update store =
    OnlyDrops-Unmoved s _ (publish_annotation-IsTold is_closed c s seed update store).0
