-- ===== src/Daemon/Tests/Annotating.antt =====
-- The annotation RPCs on the daemon of the run.
use nvnmos.Common.{
  nat_Eq, text_Eq, text_eq, Text, codes, decimal, ◌^◌, ◌<◌, ◌≡◌, refl, ◌≢◌, ◌↔◌, ◌⊎◌, true, false,
  none, some, List, [], arith,
}
use nvnmos.HashMap
use nvnmos.HashMap.{HashMap}
use nvnmos.Wrapper.{resource_type_Eq, ResourceType}
use nvnmos.Daemon.Types.{side_Eq, name_key_Eq, seed_key_Eq}
use nvnmos.Daemon.State.{session_handle, State}
use nvnmos.Daemon.Status.{Code, internal, ok, err}
use nvnmos.Daemon.Ports.{resolve_http_port}
use nvnmos.Daemon.Sessions.{prepare_open_session, commit_open_session}
use nvnmos.Daemon.Streams.{subscribe_activations, subscribe_annotations}
use nvnmos.Daemon.Resources.{prepare_add_resource, commit_add_resource}
use nvnmos.Daemon.TransportFile.{transport_file_name}
use nvnmos.Daemon.AnnotationStore.{get_annotation}
use nvnmos.Daemon.Annotations.{
  prepare_annotation_update, annotation_snapshot, publish_annotation, open_annotations,
  AnnotationUpdatePrep, Channels,
}
use nvnmos.Daemon.Annotations.Messages.{
  proto_annotation, annotation_event, decode_annotation_update, ProtoAnnotation, AnnotationEvent,
}
use nvnmos.Daemon.Annotations.Owners.{prepare_annotation_update_iff, MayAnnotate}
use nvnmos.Daemon.Annotations.Publish.{Each, IsTold, publish_annotation-IsTold, OnlyDrops}
use nvnmos.Daemon.Annotations.Delivery.{Some, IsOpen}
use nvnmos.Daemon.Annotations.Snapshot.{open_annotations_answers}
use nvnmos.Daemon.Annotations.Requests.{decode_annotation_update-proto_annotation, IsRequest}
use nvnmos.Daemon.Annotations.Updates.{
  on_annotation_updated, stored_after, on_annotation_updated-tells,
}
use nvnmos.Daemon.Requests.{default_config, translate_config}
use nvnmos.Daemon.Requests.Accepted.{IsWholeAsset, HasPorts, accepted, translate_config_iff}
use nvnmos.Daemon.Tests.Run.{seed, no_port, first, second, sender_name, added, added-IsValid}
use nvnmos.Daemon.Tests.Annotations.{label_only, update, nothing_stored}
use nvnmos.Daemon.Steps.{start}
use nvnmos.Daemon.Tests.Sessions.{roomy}
use nvnmos.Daemon.State.{new}

abbrev of_sender : AnnotationUpdatePrep
of_sender = record { server = 7; resource_type = ResourceType.sender; name = some sender_name }

abbrev handle : Text
handle = codes "res-0"

prepare_annotation_update_iff_example :
    ((prepare_annotation_update added.state first ResourceType.sender handle ≡ ok of_sender)
      ↔ MayAnnotate added.state first ResourceType.sender handle of_sender)
    × (prepare_annotation_update added.state first ResourceType.sender handle ≢ err internal)
prepare_annotation_update_iff_example =
    prepare_annotation_update_iff added added-IsValid first ResourceType.sender handle of_sender

abbrev channels : Channels
channels = record { is_closed = λ tx q. false; try_send = λ tx q. true }

-- The second session has a stream of annotations, on channel 9.
abbrev watched : State
watched = (subscribe_annotations no_port added.state second 9).0

publish_annotation-IsTold_example :
    OnlyDrops watched (publish_annotation no_port channels watched seed update nothing_stored).0
    × Each
        (IsTold watched seed ResourceType.node []
          (get_annotation nothing_stored seed ResourceType.node []))
        (publish_annotation no_port channels watched seed update nothing_stored).1
publish_annotation-IsTold_example =
    publish_annotation-IsTold no_port channels watched seed update nothing_stored

channels-IsOpen : IsOpen no_port channels
channels-IsOpen = record {
  connected = λ tx. refl;
  still_connected = λ tx q. refl;
  room = λ tx q. refl;
}

on_annotation_updated-tells_example :
    (((on_annotation_updated no_port channels watched nothing_stored seed update).3 ≡ true)
      × Some
          (λ m.
            m
            ≡ (9, annotation_event ResourceType.node [] (stored_after nothing_stored seed update)))
          (on_annotation_updated no_port channels watched nothing_stored seed update).2)
    ⊎ (on_annotation_updated no_port channels watched nothing_stored seed update
        ≡ (watched, nothing_stored, [], false))
unfolding start new prepare_open_session commit_open_session HashMap.get HashMap.insert
    HashMap.remove HashMap.empty resolve_http_port text_eq session_handle decimal
    subscribe_activations subscribe_annotations prepare_add_resource commit_add_resource
    transport_file_name
on_annotation_updated-tells_example =
    on_annotation_updated-tells no_port channels channels-IsOpen watched nothing_stored seed update
      second [] 9 (refl, refl) refl

open_annotations_answers_example :
    let t = subscribe_annotations no_port watched first 10 in
    ((c : Code) × (t.1 ≡ err c)
      × (open_annotations no_port roomy watched first 10 nothing_stored ≡ (t.0, err c)))
    ⊎ ((events : List AnnotationEvent) × (t.1 ≡ ok tt)
        × (annotation_snapshot watched first nothing_stored ≡ ok events)
        × (open_annotations no_port roomy watched first 10 nothing_stored ≡ (t.0, ok events)))
open_annotations_answers_example =
    open_annotations_answers no_port roomy (λ capacity n h. ground (arith, h)) watched first 10
      nothing_stored

decode_annotation_update-proto_annotation_example :
    (((p : ProtoAnnotation) × (decode_annotation_update (some p) ≡ ok label_only))
      ↔ IsRequest label_only)
    × ((decode_annotation_update (some (proto_annotation (some label_only))) ≡ ok label_only)
        ↔ IsRequest label_only)
decode_annotation_update-proto_annotation_example =
    decode_annotation_update-proto_annotation label_only

translate_config_iff_example :
    (translate_config (some default_config) ≡ ok (accepted default_config)) ↔ (
      (accepted default_config ≡ accepted default_config)
      × (0 < 2 ^ 16)
      × IsWholeAsset none
      × HasPorts none)
translate_config_iff_example = translate_config_iff (some default_config) (accepted default_config)
