-- ===== src/Daemon/Streams.antt =====
-- Subscription streams: `subscribe_activations` to `on_channelmapping_subscription_stream_ended` of
-- rust/nvnmosd/src/state.rs. Whether the receiving half of a channel is closed (tokio's `is_closed`)
-- can change at any time, so each call of it is an argument of its own.
use nvnmos.Common.{nat_Eq, text_Eq, Text, ℕ, Bool, ◌&&◌, ◌||◌, not, if◌then◌else◌, is_some_and}
use nvnmos.HashMap
use nvnmos.HashMap.{HashMap}
use nvnmos.Daemon.Status.{Result, not_found, already_exists, ok, err}
use nvnmos.Daemon.Types.{side_Eq, name_key_Eq, seed_key_Eq}
use nvnmos.Daemon.State.{State}

-- The three maps of subscribers are handled alike.
abbrev pub Subscribers : Type 0
Subscribers = HashMap Text ℕ

-- The slot of a session has a sender whose receiver is still connected.
unfoldable pub is_live : (ℕ → Bool) → Subscribers → Text → Bool
is_live is_closed m handle = is_some_and (HashMap.get m handle) (λ tx. not (is_closed tx))

-- The slot of a session has a sender whose receiver is gone.
unfoldable pub is_stale : (ℕ → Bool) → Subscribers → Text → Bool
is_stale is_closed m handle = is_some_and (HashMap.get m handle) is_closed

unfoldable pub reap : (ℕ → Bool) → Subscribers → Text → Subscribers
unfolding is_stale
reap is_closed m handle = if is_stale is_closed m handle then HashMap.remove m handle else m

-- `sessions_contains`
abbrev pub has_session : State → Text → Bool
has_session s handle = HashMap.contains_key s.sessions handle

-- The common body of the three `subscribe_…` methods.
unfoldable pub subscribe : (ℕ → Bool) → State → Subscribers → Text → ℕ → Result Subscribers
unfolding is_live
subscribe is_closed s m handle tx =
    if not (has_session s handle)
    then err not_found
    else if is_live is_closed m handle
    then err already_exists
    else ok (HashMap.insert m handle tx)

-- `State::subscribe_activations`
unfoldable pub subscribe_activations : (ℕ → Bool) → State → Text → ℕ → State × Result (Unit {0})
unfolding subscribe
subscribe_activations is_closed s handle tx =
    elim (subscribe is_closed s s.subscriptions handle tx) [
      | err c ↦ (s, err c)
      | ok m ↦ (record s { subscriptions = m }, ok tt)
    ]

-- `State::subscribe_annotations`
unfoldable pub subscribe_annotations : (ℕ → Bool) → State → Text → ℕ → State × Result (Unit {0})
unfolding subscribe
subscribe_annotations is_closed s handle tx =
    elim (subscribe is_closed s s.annotation_subscriptions handle tx) [
      | err c ↦ (s, err c)
      | ok m ↦ (record s { annotation_subscriptions = m }, ok tt)
    ]

-- `State::subscribe_channelmapping_activations`
unfoldable pub subscribe_channelmapping_activations :
    (ℕ → Bool) → State → Text → ℕ → State × Result (Unit {0})
unfolding subscribe
subscribe_channelmapping_activations is_closed s handle tx =
    elim (subscribe is_closed s s.channelmapping_subscriptions handle tx) [
      | err c ↦ (s, err c)
      | ok m ↦ (record s { channelmapping_subscriptions = m }, ok tt)
    ]

-- `State::reap_annotation_subscription`
unfoldable pub reap_annotation_subscription : (ℕ → Bool) → State → Text → State
unfolding reap
reap_annotation_subscription is_closed s handle = record s {
  annotation_subscriptions = reap is_closed s.annotation_subscriptions handle;
}

-- `State::drop_annotation_subscription`
unfoldable pub drop_annotation_subscription : State → Text → State
drop_annotation_subscription s handle = record s {
  annotation_subscriptions = HashMap.remove s.annotation_subscriptions handle;
}

-- `State::reap_closed_subscription`
unfoldable pub reap_closed_subscription : (ℕ → Bool) → State → Text → State
unfolding reap
reap_closed_subscription is_closed s handle = record s {
  subscriptions = reap is_closed s.subscriptions handle;
}

-- `State::reap_closed_channelmapping_subscription`
unfoldable pub reap_closed_channelmapping_subscription : (ℕ → Bool) → State → Text → State
unfolding reap
reap_closed_channelmapping_subscription is_closed s handle = record s {
  channelmapping_subscriptions = reap is_closed s.channelmapping_subscriptions handle;
}

-- `State::has_active_subscription`
unfoldable pub has_active_subscription : (ℕ → Bool) → State → Text → Bool
unfolding is_live
has_active_subscription is_closed s handle = is_live is_closed s.subscriptions handle

-- `State::has_active_channelmapping_subscription`
unfoldable pub has_active_channelmapping_subscription : (ℕ → Bool) → State → Text → Bool
unfolding is_live
has_active_channelmapping_subscription is_closed s handle =
    is_live is_closed s.channelmapping_subscriptions handle

-- `State::has_any_activation_subscription`
unfoldable pub has_any_activation_subscription : (ℕ → Bool) → State → Text → Bool
unfolding has_active_subscription has_active_channelmapping_subscription
has_any_activation_subscription is_closed s handle =
    has_active_subscription is_closed s handle
    || has_active_channelmapping_subscription is_closed s handle

-- `State::on_subscription_stream_ended`: the flag tells the caller to arm the watchdog.
unfoldable pub on_subscription_stream_ended :
    (reaping checking : ℕ → Bool) → State → Text → State × Bool
unfolding reap_closed_subscription has_any_activation_subscription
on_subscription_stream_ended reaping checking s handle =
    let s' = reap_closed_subscription reaping s handle in
    (s', has_session s' handle && not (has_any_activation_subscription checking s' handle))

-- `State::on_channelmapping_subscription_stream_ended`
unfoldable pub on_channelmapping_subscription_stream_ended :
    (reaping checking : ℕ → Bool) → State → Text → State × Bool
unfolding reap_closed_channelmapping_subscription has_any_activation_subscription
on_channelmapping_subscription_stream_ended reaping checking s handle =
    let s' = reap_closed_channelmapping_subscription reaping s handle in
    (s', has_session s' handle && not (has_any_activation_subscription checking s' handle))
