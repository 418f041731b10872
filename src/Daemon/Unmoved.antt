-- ===== src/Daemon/Unmoved.antt =====
-- The operations on streams, activations and channel mappings that leave the bookkeeping of Nodes,
-- sessions and resources alone.
use nvnmos.Common.{nat_Eq, text_Eq, Text, ℕ, ◌≡◌, Bool, Option, List, [], ◌∷◌, map, arith}
use nvnmos.Wrapper.{Transport}
use nvnmos.Daemon.Types.{side_Eq, name_key_Eq, seed_key_Eq, Side}
use nvnmos.Daemon.State.{State}
use nvnmos.Daemon.Streams.{
  subscribe_activations, subscribe_annotations, subscribe_channelmapping_activations,
  reap_annotation_subscription, drop_annotation_subscription, on_subscription_stream_ended,
  on_channelmapping_subscription_stream_ended,
}
use nvnmos.Daemon.Activations.{
  dispatch_activation, complete_activation, cleanup_pending_activation, Sent,
}
use nvnmos.Daemon.Resources.{prepare_add_resource}
use nvnmos.Daemon.ChannelMappings.{ProtoInput, ProtoOutput, prepare_add_channelmapping}
use nvnmos.Daemon.MappingRoutes.{
  dispatch_channelmapping_activation, complete_channelmapping_activation,
  cleanup_pending_channelmapping_activation, ProtoActiveMapEntry,
}

pub record Unmoved (s t : State) : Type 0 where
  pub nodes : t.nodes ≡ s.nodes
  pub pending_nodes : t.pending_nodes ≡ s.pending_nodes
  pub sessions : t.sessions ≡ s.sessions
  pub http_ports : t.http_ports ≡ s.http_ports
  pub next_session_id : t.next_session_id ≡ s.next_session_id
  pub resources : t.resources ≡ s.resources
  pub by_name : t.by_name ≡ s.by_name
  pub next_resource_id : t.next_resource_id ≡ s.next_resource_id

pub Unmoved-refl : (s : State) → Unmoved s s
Unmoved-refl s = ground arith

module _ (f : ℕ → Bool) (s : State) (handle : Text) where
  pub subscribe_activations-Unmoved : (tx : ℕ) → Unmoved s (subscribe_activations f s handle tx).0
  unfolding subscribe_activations
  subscribe_activations-Unmoved tx = ground arith

  pub subscribe_annotations-Unmoved : (tx : ℕ) → Unmoved s (subscribe_annotations f s handle tx).0
  unfolding subscribe_annotations
  subscribe_annotations-Unmoved tx = ground arith

  pub subscribe_channelmapping_activations-Unmoved :
      (tx : ℕ) → Unmoved s (subscribe_channelmapping_activations f s handle tx).0
  unfolding subscribe_channelmapping_activations
  subscribe_channelmapping_activations-Unmoved tx = ground arith

  pub stream_ended-Unmoved :
      (g : ℕ → Bool) → Unmoved s (on_subscription_stream_ended f g s handle).0
  unfolding on_subscription_stream_ended
  stream_ended-Unmoved g = ground arith

  pub mapping_stream_ended-Unmoved :
      (g : ℕ → Bool) → Unmoved s (on_channelmapping_subscription_stream_ended f g s handle).0
  unfolding on_channelmapping_subscription_stream_ended
  mapping_stream_ended-Unmoved g = ground arith

  pub reap_annotation-Unmoved : Unmoved s (reap_annotation_subscription f s handle)
  unfolding reap_annotation_subscription
  reap_annotation-Unmoved = ground arith

  pub dispatch-Unmoved :
      (send : ℕ → Sent) (side : Side) (name : Text) (file : Option Text)
      → Unmoved s (dispatch_activation f send s handle side name file).0
  unfolding dispatch_activation
  dispatch-Unmoved send side name file = ground arith

  pub mapping_dispatch-Unmoved :
      (send : ℕ → Sent) (output : Text) (map : List ProtoActiveMapEntry)
      → Unmoved s (dispatch_channelmapping_activation f send s handle output map).0
  unfolding dispatch_channelmapping_activation
  mapping_dispatch-Unmoved send output map = ground arith

  pub prepare_add_resource-Unmoved :
      (tag : Text → Option Text) (g : ℕ → Bool) (side : Side) (transport : Transport)
      (file name : Text)
      → Unmoved s (prepare_add_resource tag f g s side handle transport file name).0
  unfolding prepare_add_resource
  prepare_add_resource-Unmoved tag g side transport file name = ground arith

module _ (s : State) (handle : Text) where
  pub complete-Unmoved : (activation : Text) → Unmoved s (complete_activation s handle activation).0
  unfolding complete_activation
  complete-Unmoved activation = ground arith

  pub mapping_complete-Unmoved :
      (activation : Text) → Unmoved s (complete_channelmapping_activation s handle activation).0
  unfolding complete_channelmapping_activation
  mapping_complete-Unmoved activation = ground arith

  pub cleanup-Unmoved : Unmoved s (cleanup_pending_activation s handle)
  unfolding cleanup_pending_activation
  cleanup-Unmoved = ground arith

  pub mapping_cleanup-Unmoved : Unmoved s (cleanup_pending_channelmapping_activation s handle)
  unfolding cleanup_pending_channelmapping_activation
  mapping_cleanup-Unmoved = ground arith

  pub drop_annotation-Unmoved : Unmoved s (drop_annotation_subscription s handle)
  unfolding drop_annotation_subscription
  drop_annotation-Unmoved = ground arith

pub prepare_add_channelmapping-Unmoved :
    (f g : ℕ → Bool) (s : State) (handle name : Text) (inputs : List ProtoInput)
    (outputs : List ProtoOutput)
    → Unmoved s (prepare_add_channelmapping f g s handle name inputs outputs).0
unfolding prepare_add_channelmapping
prepare_add_channelmapping-Unmoved f g s handle [] inputs outputs = Unmoved-refl s
prepare_add_channelmapping-Unmoved f g s handle (c ∷ name) inputs outputs = ground arith
