-- ===== src/Daemon/Annotations/Updates.antt =====
-- How an annotation comes to the store and from there to the streams: the handler of
-- `UpdateAnnotation` of rust/nvnmosd/src/main.rs and the callback that `run_ffi` of src/state.rs
-- gives to libnvnmos.
use nvnmos.Common.{
  ==_refl, nat_Eq, text_Eq, Text, ℕ, ◌≡◌, refl, ◌∙◌, subst, ◌⊎◌, inl, inr, Bool, true, false, not,
  Option, none, some, [], if◌then◌else◌,
}
use nvnmos.HashMap
use nvnmos.HashMap.{HashMap}
use nvnmos.Wrapper.{Annotation, AnnotationUpdate}
use nvnmos.Daemon.Status.{◌>>=◌, Result, failed_precondition, ok, err}
use nvnmos.Daemon.State.{State}
use nvnmos.Daemon.AnnotationStore.{
  get_annotation, is_blank, unwrap_or, update_key, updated, apply, Inner,
}
use nvnmos.Daemon.AnnotationStore.Stored.{apply-get_annotation}
use nvnmos.Daemon.Annotations.{
  side_of, prepare_annotation_update, Queued, publish_annotation, AnnotationUpdatePrep, Channels,
}
use nvnmos.Daemon.Annotations.Messages.{
  decode_resource_type, annotation_event, decode_annotation_update, ProtoAnnotation,
}
use nvnmos.Daemon.Annotations.Publish.{Sees}
use nvnmos.Daemon.Annotations.Delivery.{Some, publish_annotation-tells, IsOpen}

-- What the handler gives to libnvnmos; the flag tells that the daemon keeps annotations.
unfoldable pub begin_update_annotation :
    Bool
    → State
    → Text
    → ℕ
    → Text
    → Option ProtoAnnotation
    → Result (AnnotationUpdatePrep × Annotation)
unfolding decode_resource_type decode_annotation_update prepare_annotation_update
begin_update_annotation enabled s handle raw_type id message =
    if not enabled then err failed_precondition else do
      type ← decode_resource_type raw_type
      annotation ← decode_annotation_update message
      prep ← prepare_annotation_update s handle type id
      ok (prep, annotation)

-- The callback: the state and the store after it, what was queued, and whether it accepts.
unfoldable pub on_annotation_updated :
    (ℕ → Bool) → Channels → State → Inner → Text → AnnotationUpdate → State × Inner × Queued × Bool
on_annotation_updated is_closed c s store seed update =
    let (store', accepted) = apply store seed update in
    if accepted
    then (let (s', q) = publish_annotation is_closed c s seed update store' in
        (s', store', q, true))
    else (s, store', [], false)

-- What the store has for the resource once it accepted the update.
abbrev pub stored_after : Inner → Text → AnnotationUpdate → Option Annotation
stored_after store seed update =
    if is_blank (updated store seed update) then none else some (updated store seed update)

module _ (is_closed : ℕ → Bool) (c : Channels) (opened : IsOpen is_closed c) (s : State) where
  -- While every receiver is connected and has room, an update that the store accepts reaches each
  -- session that has a stream and may see what it annotates, merged with what was stored before; an
  -- update that the store refuses reaches none and leaves state and store as they were.
  pub on_annotation_updated-tells :
      (store : Inner) (seed : Text) (update : AnnotationUpdate) (handle id : Text) (tx : ℕ)
      → Sees s seed (side_of update.resource_type) (unwrap_or [] update.name) handle id
      → HashMap.get s.annotation_subscriptions handle ≡ some tx
      → let r = on_annotation_updated is_closed c s store seed update in
        ((r.3 ≡ true)
          × Some
              (λ m.
                m ≡ (tx, annotation_event update.resource_type id (stored_after store seed update)))
              r.2)
        ⊎ (r ≡ (s, store, [], false))
  unfolding on_annotation_updated get_annotation
  on_annotation_updated-tells store seed update handle id tx sees k =
      elim (apply-get_annotation store seed update (update_key seed update)) [
        | inl (a, g) ↦
            let store' = (apply store seed update).0 in
            let now : get_annotation store' seed update.resource_type (unwrap_or [] update.name)
                ≡ stored_after store seed update =
              g ∙ rw (==_refl (update_key seed update)) refl in
            let told =
              publish_annotation-tells is_closed c opened s seed update store' handle id tx sees
                k in
            inl (
              rw (on_annotation_updated, a)
                (
                  refl,
                  subst
                      (λ st.
                        Some (λ m. m ≡ (tx, annotation_event update.resource_type id st))
                          (publish_annotation is_closed c s seed update store').1)
                      now told,
                ))
        | inr (e, _, _) ↦ inr (rw e refl)
      ]
