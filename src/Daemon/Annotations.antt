-- ===== src/Daemon/Annotations.antt =====
-- The annotation RPCs: `prepare_annotation_update` to `send_annotation` of
-- rust/nvnmosd/src/state.rs, and the handler of `SubscribeAnnotations` of src/main.rs.
pub mod Messages
pub mod Owners
pub mod Publish
pub mod Delivery
pub mod Frame
pub mod Snapshot
pub mod Requests
pub mod Updates
use nvnmos.Common.{
  ◌==◌, nat_Eq, text_Eq, Text, ℕ, suc, Bool, true, false, ◌&&◌, ◌||◌, not, Option, none, some, List,
  [], ◌∷◌, ◌++◌, map, ltb, nat_eq, if◌then◌else◌, length,
}
use nvnmos.HashMap
use nvnmos.HashMap.{HashMap}
use nvnmos.Wrapper.{ResourceType, Annotation, AnnotationUpdate}
use nvnmos.Daemon.Status.{
  ◌>>=◌, ◌>>◌, ok_or, Result, invalid_argument, not_found, internal, ok, err,
}
use nvnmos.Daemon.Types.{side_Eq, name_key_Eq, seed_key_Eq, Side, ResourceEntry, sender, receiver}
use nvnmos.Daemon.State.{State}
use nvnmos.Daemon.Streams.{is_live, subscribe_annotations, drop_annotation_subscription}
use nvnmos.Daemon.Resources.{name_key}
use nvnmos.Daemon.AnnotationStore.{key_Eq, get_annotation, unwrap_or, Inner}
use nvnmos.Daemon.Annotations.Messages.{annotation_event, AnnotationEvent}

pub record AnnotationUpdatePrep : Type 0 where
  pub server : ℕ
  pub resource_type : ResourceType
  pub name : Option Text

abbrev pub side_order : Side → ℕ
side_order sender = 0
side_order receiver = 1

abbrev pub resource_types_for_side : Side → List ResourceType
resource_types_for_side sender = ResourceType.source ∷ ResourceType.flow ∷ ResourceType.sender ∷ []
resource_types_for_side receiver = ResourceType.receiver ∷ []

-- The side whose resources have the type; a Node and a Device are on neither.
abbrev pub side_of : ResourceType → Option Side
side_of ResourceType.node = none
side_of ResourceType.device = none
side_of ResourceType.receiver = some receiver
side_of _ = some sender

-- `State::owned_resource_name`
unfoldable pub owned_resource_name : State → Text → Text → Side → Result Text
owned_resource_name s handle id side = do
  session ← ok_or (HashMap.get s.sessions handle) not_found
  if id == [] || not (HashMap.contains_key session.resources id) then err not_found else do
    resource ← ok_or (HashMap.get s.resources id) internal
    if resource.side == side then ok resource.name else err invalid_argument

-- The `match` on the resource type of `prepare_annotation_update`.
unfoldable pub annotated_name : State → Text → Option Side → Text → Result (Option Text)
annotated_name s handle none id = if id == [] then ok none else err invalid_argument
annotated_name s handle (some side) id = do
  name ← owned_resource_name s handle id side
  ok (some name)

-- `State::prepare_annotation_update`
unfoldable pub prepare_annotation_update :
    State → Text → ResourceType → Text → Result AnnotationUpdatePrep
unfolding annotated_name
prepare_annotation_update s handle type id = do
  session ← ok_or (HashMap.get s.sessions handle) not_found
  entry ← ok_or (HashMap.get s.nodes session.node_seed) internal
  name ← annotated_name s handle (side_of type) id
  ok (record { server = entry.server; resource_type = type; name = name })

-- `str::cmp`: whether the first text comes strictly before the second.
unfoldable pub before : Text → Text → Bool
before a [] = false
before [] (d ∷ b) = true
before (c ∷ a) (d ∷ b) = if ltb c d then true else nat_eq c d && before a b

-- A resource as `annotation_snapshot` lists it.
pub record Owned : Type 0 where
  pub id : Text
  pub name : Text
  pub side : Side

-- The order of `sort_by`: by name, then by side.
unfoldable pub comes_before : Owned → Owned → Bool
unfolding before
comes_before a b =
    before a.name b.name || a.name == b.name && ltb (side_order a.side) (side_order b.side)

-- `sort_by` is stable: what does not come before an element goes after it.
unfoldable pub insert_sorted : Owned → List Owned → List Owned
insert_sorted a [] = a ∷ []
insert_sorted a (b ∷ bs) = if comes_before b a then b ∷ insert_sorted a bs else a ∷ b ∷ bs

unfoldable pub sort : List Owned → List Owned
unfolding insert_sorted
sort [] = []
sort (a ∷ rest) = insert_sorted a (sort rest)

-- The `filter_map` over the handles of the session.
unfoldable pub owned_of : HashMap Text ResourceEntry → List Text → List Owned
owned_of resources [] = []
owned_of resources (id ∷ ids) =
    let rest = owned_of resources ids in
    elim (HashMap.get resources id) [
      | none ↦ rest
      | some r ↦ record { id = id; name = r.name; side = r.side } ∷ rest
    ]

unfoldable pub events_of : Inner → Text → Text → Text → List ResourceType → List AnnotationEvent
events_of store seed id name [] = []
events_of store seed id name (type ∷ types) =
    annotation_event type id (get_annotation store seed type name)
    ∷ events_of store seed id name types

unfoldable pub owned_events : Inner → Text → List Owned → List AnnotationEvent
unfolding events_of
owned_events store seed [] = []
owned_events store seed (o ∷ os) =
    events_of store seed o.id o.name (resource_types_for_side o.side) ++ owned_events store seed os

-- `State::annotation_snapshot`
unfoldable pub annotation_snapshot : State → Text → Inner → Result (List AnnotationEvent)
unfolding owned_of sort owned_events
annotation_snapshot s handle store = do
  session ← ok_or (HashMap.get s.sessions handle) not_found
  let seed = session.node_seed
  let owned = sort (owned_of s.resources (HashMap.keys_where (λ _ _. true) session.resources))
  ok (
      annotation_event ResourceType.node [] (get_annotation store seed ResourceType.node [])
      ∷ annotation_event ResourceType.device [] (get_annotation store seed ResourceType.device [])
      ∷ owned_events store seed owned)

-- What was queued on a channel, oldest first, and how the channel answers: whether it is closed, and
-- whether it takes one more event, after the events that this call has queued.
abbrev pub Queued : Type 0
Queued = List (ℕ × AnnotationEvent)

pub record Channels : Type 0 where
  pub is_closed : ℕ → Queued → Bool
  pub try_send : ℕ → Queued → Bool

-- `State::send_annotation`
unfoldable pub send_annotation : Channels → State × Queued → Text → AnnotationEvent → State × Queued
send_annotation c (s, q) handle event = elim (HashMap.get s.annotation_subscriptions handle) [
  | none ↦ (s, q)
  | some tx ↦
      if not (c.is_closed tx q) && c.try_send tx q
      then (s, q ++ (tx, event) ∷ [])
      else (drop_annotation_subscription s handle, q)
]

-- `State::resource_recipient`
unfoldable pub resource_recipient : (ℕ → Bool) → State → Text → Side → Text → List (Text × Text)
resource_recipient is_closed s seed side name =
    elim (HashMap.get s.by_name (name_key seed side name)) [
      | none ↦ []
      | some id ↦ elim (HashMap.get s.resources id) [
        | none ↦ []
        | some r ↦
            if is_live is_closed s.annotation_subscriptions r.session_handle
            then (r.session_handle, id) ∷ []
            else []
      ]
    ]

-- `State::annotation_recipients`, by the side of the resource type
unfoldable pub annotation_recipients :
    (ℕ → Bool) → State → Text → Option Side → Text → List (Text × Text)
unfolding resource_recipient
annotation_recipients is_closed s seed (some side) name =
    resource_recipient is_closed s seed side name
annotation_recipients is_closed s seed none name =
    map (λ (handle : Text). (handle, []))
      (HashMap.keys_where
        (λ handle session.
          session.node_seed == seed && is_live is_closed s.annotation_subscriptions handle)
        s.sessions)

unfoldable pub send_to_all :
    Channels
    → ResourceType
    → Option Annotation
    → State × Queued
    → List (Text × Text)
    → State × Queued
unfolding send_annotation
send_to_all c type stored y [] = y
send_to_all c type stored y ((handle, id) ∷ rest) =
    send_to_all c type stored (send_annotation c y handle (annotation_event type id stored)) rest

-- `State::publish_annotation`
unfoldable pub publish_annotation :
    (ℕ → Bool) → Channels → State → Text → AnnotationUpdate → Inner → State × Queued
unfolding send_to_all annotation_recipients
publish_annotation is_closed c s seed update store =
    let name = unwrap_or [] update.name in
    send_to_all c update.resource_type (get_annotation store seed update.resource_type name) (s, [])
      (annotation_recipients is_closed s seed (side_of update.resource_type) name)

unfoldable pub send_each : Channels → Text → State × Queued → List AnnotationEvent → State × Queued
unfolding send_annotation
send_each c handle y [] = y
send_each c handle y (event ∷ events) = send_each c handle (send_annotation c y handle event) events

-- `State::emit_added_resource`
unfoldable pub emit_added_resource : (ℕ → Bool) → Channels → State → Text → Inner → State × Queued
unfolding send_each events_of
emit_added_resource is_closed c s id store = elim (HashMap.get s.resources id) [
  | none ↦ (s, [])
  | some r ↦
      if is_live is_closed s.annotation_subscriptions r.session_handle
      then send_each c r.session_handle (s, [])
          (events_of store r.node_seed id r.name (resource_types_for_side r.side))
      else (s, [])
]

-- The events of a snapshot go to the new channel one by one; the flag tells that one did not fit.
unfoldable pub fill_stream : (ℕ → Bool) → ℕ → List AnnotationEvent → Bool
fill_stream accepts queued [] = true
fill_stream accepts queued (event ∷ events) =
    let rest = fill_stream accepts (suc queued) events in if accepts queued then rest else false

abbrev pub subscription_buffer : ℕ
subscription_buffer = 16

-- What the handler does once it has tried to subscribe: the snapshot is taken again, and queued.
unfoldable pub begin_stream :
    (ℕ → Bool) → Text → Inner → State × Result (Unit {0}) → State × Result (List AnnotationEvent)
unfolding annotation_snapshot fill_stream drop_annotation_subscription
begin_stream accepts handle store (t, err c) = (t, err c)
begin_stream accepts handle store (t, ok _) = elim (annotation_snapshot t handle store) [
  | err c ↦ (t, err c)
  | ok events ↦
      if fill_stream accepts 0 events
      then (t, ok events)
      else (drop_annotation_subscription t handle, err internal)
]

-- The locked section of the handler `subscribe_annotations` (src/main.rs): the state, and the
-- events that stand in the stream. `accepts capacity n` tells whether the new channel takes an
-- event when it holds `n`.
unfoldable pub open_annotations :
    (ℕ → Bool) → (ℕ → ℕ → Bool) → State → Text → ℕ → Inner → State × Result (List AnnotationEvent)
unfolding annotation_snapshot subscribe_annotations begin_stream
open_annotations is_closed accepts s handle tx store = elim (annotation_snapshot s handle store) [
  | err c ↦ (s, err c)
  | ok first ↦
      begin_stream
        (accepts
          (if ltb (length first) subscription_buffer then subscription_buffer else length first))
        handle store (subscribe_annotations is_closed s handle tx)
]
