-- ===== src/Daemon/Activations.antt =====
-- The activation router: `dispatch_activation`, `complete_activation` and
-- `cleanup_pending_activation` of rust/nvnmosd/src/state.rs, and `route_activation` of src/main.rs.
-- The channel of one activation's acknowledgement is the number of that activation.
use nvnmos.Common.{
  ◌==◌, nat_Eq, text_Eq, Text, ℕ, ◌⊎◌, inl, inr, Bool, not, Option, none, some, if◌then◌else◌,
}
use nvnmos.HashMap
use nvnmos.HashMap.{HashMap}
use nvnmos.Daemon.Status.{Result, not_found, ok, err}
use nvnmos.Daemon.Types.{side_Eq, name_key_Eq, seed_key_Eq, Side}
use nvnmos.Daemon.State.{fetch_add, activation_handle, State}
use nvnmos.Daemon.Streams.{has_session, reap_closed_subscription}
use nvnmos.Daemon.Resources.{name_key}

-- What tokio's `try_send` answers.
pub data Sent : Type 0 where
  delivered full closed : Sent

pub record ActivationEvent : Type 0 where
  pub resource_handle : Text
  pub activation_handle : Text
  pub transport_file : Option Text
  pub side : Side

pub record AckOutcome : Type 0 where
  pub success : Bool
  pub failure_reason : Text

pub record Routed : Type 0 where
  pub activation_handle : Text
  pub ack : ℕ
  pub tx : ℕ
  pub event : ActivationEvent

pub data ActivationDispatch : Type 0 where
  routed : Routed → ActivationDispatch
  no_resource no_subscriber subscriber_busy : ActivationDispatch

-- The owning session's stream, after a stale one is reaped.
unfoldable pub stream_of : (ℕ → Bool) → State → Text → State × Option ℕ
unfolding reap_closed_subscription
stream_of is_closed s owner =
    let s' = reap_closed_subscription is_closed s owner in (s', HashMap.get s'.subscriptions owner)

-- The event is sent, and recorded as pending when it was delivered.
unfoldable pub send_activation :
    (ℕ → Sent) → State → Text → ℕ → ActivationEvent → State × ActivationDispatch
send_activation try_send s owner tx event =
    let allocated = record s { next_activation_id = fetch_add s.next_activation_id } in
    elim (try_send tx) [
      | full ↦ (allocated, subscriber_busy)
      | closed ↦
          (record allocated { subscriptions = HashMap.remove s.subscriptions owner }, no_subscriber)
      | delivered ↦ (
        record allocated {
          pending_activations =
              HashMap.insert s.pending_activations event.activation_handle
                (record { session_handle = owner; ack_tx = s.next_activation_id });
        },
        routed (record {
          activation_handle = event.activation_handle;
          ack = s.next_activation_id;
          tx = tx;
          event = event;
        }),
      )
    ]

-- `State::dispatch_activation`
unfoldable pub dispatch_activation :
    (ℕ → Bool) → (ℕ → Sent) → State → Text → Side → Text → Option Text → State × ActivationDispatch
unfolding stream_of send_activation
dispatch_activation is_closed try_send s seed side name file =
    elim (HashMap.get s.by_name (name_key seed side name)) [
      | none ↦ (s, no_resource)
      | some resource ↦ elim (HashMap.get s.resources resource) [
        | none ↦ (s, no_resource)
        | some entry ↦
            let found = stream_of is_closed s entry.session_handle in
            elim found.1 [
              | none ↦ (found.0, no_subscriber)
              | some tx ↦ send_activation try_send found.0 entry.session_handle tx (record {
                resource_handle = resource;
                activation_handle = activation_handle s.next_activation_id;
                transport_file = file;
                side = side;
              })
            ]
      ]
    ]

-- `State::complete_activation`; on success the second part is the sender that gets the outcome.
unfoldable pub complete_activation : State → Text → Text → State × Result ℕ
complete_activation s handle activation =
    if not (has_session s handle)
    then (s, err not_found)
    else elim (HashMap.get s.pending_activations activation) [
      | none ↦ (s, err not_found)
      | some pending ↦
          if pending.session_handle == handle
          then (
            record s { pending_activations = HashMap.remove s.pending_activations activation },
            ok pending.ack_tx,
          )
          else (s, err not_found)
    ]

-- `State::cleanup_pending_activation`
unfoldable pub cleanup_pending_activation : State → Text → State
cleanup_pending_activation s activation = record s {
  pending_activations = HashMap.remove s.pending_activations activation;
}

-- What `recv_timeout` answers.
pub data Received : Type 0 where
  answer : AckOutcome → Received
  timeout disconnected : Received

-- The reasons of a refused activation.
pub data Nack : Type 0 where
  unknown_resource no_stream stream_full timed_out session_closed : Nack
  client : Text → Nack

-- The last part of `route_activation`: `none` accepts the activation.
unfoldable pub verdict : Received → Option Nack
verdict (answer outcome) = if outcome.success then none else some (client outcome.failure_reason)
verdict timeout = some timed_out
verdict disconnected = some session_closed

-- The first half of `route_activation`, up to the wait: a refusal, or what is waited for.
unfoldable pub route : ActivationDispatch → Nack ⊎ Routed
route (routed r) = inr r
route no_resource = inl unknown_resource
route no_subscriber = inl no_stream
route subscriber_busy = inl stream_full

-- The second half, after the wait.
unfoldable pub finish_route : State → Routed → Received → State × Option Nack
unfolding cleanup_pending_activation verdict
finish_route s r received = (cleanup_pending_activation s r.activation_handle, verdict received)
