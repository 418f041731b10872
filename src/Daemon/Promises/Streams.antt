-- ===== src/Daemon/Promises/Streams.antt =====
-- What the subscription streams of rust/nvnmosd/src/state.rs promise.
use nvnmos.Common.{==_refl, nat_Eq, text_Eq, Text, ℕ, ◌≡◌, ◌↔◌, Bool, true, false, arith}
use nvnmos.HashMap
use nvnmos.HashMap.{get-remove, get-insert, HashMap}
use nvnmos.Daemon.Types.{side_Eq, name_key_Eq, seed_key_Eq}
use nvnmos.Daemon.State.{State}
use nvnmos.Daemon.Status.{already_exists, ok, err}
use nvnmos.Daemon.Streams.{
  Subscribers, is_live, is_stale, reap, has_session, subscribe, subscribe_activations,
  reap_closed_subscription, reap_closed_channelmapping_subscription, has_active_subscription,
  has_active_channelmapping_subscription, has_any_activation_subscription,
  on_subscription_stream_ended, on_channelmapping_subscription_stream_ended,
}

subscribed :
    (is_closed : ℕ → Bool) (s : State) (handle : Text) (tx : ℕ)
    → (subscribe_activations is_closed s handle tx).1 ≡ ok tt
    → (has_session s handle ≡ true)
      × ((subscribe_activations is_closed s handle tx).0
          ≡ record s { subscriptions = HashMap.insert s.subscriptions handle tx })
unfolding subscribe_activations subscribe
subscribed is_closed s handle tx h = (ground arith, ground arith)

-- While the receiver of an accepted subscription is connected, another subscription of the same
-- session is refused with ALREADY_EXISTS and changes nothing.
pub subscribe_activations_twice :
    (before now : ℕ → Bool) (s : State) (handle : Text) (tx tx' : ℕ)
    → (subscribe_activations before s handle tx).1 ≡ ok tt
    → now tx ≡ false
    → let t = (subscribe_activations before s handle tx).0 in
      subscribe_activations now t handle tx' ≡ (t, err already_exists)
unfolding subscribe_activations subscribe is_live
subscribe_activations_twice before now s handle tx tx' h connected =
    let q = subscribed before s handle tx h in
    rw (q.1) (ground (arith, q.0, get-insert s.subscriptions handle handle tx, ==_refl handle))

-- Once the receiver of an accepted subscription is gone, the session can subscribe again.
pub subscribe_activations_again :
    (before reaping checking now : ℕ → Bool) (s : State) (handle : Text) (tx tx' : ℕ)
    → (subscribe_activations before s handle tx).1 ≡ ok tt
    → reaping tx ≡ true
    → let t =
        (on_subscription_stream_ended reaping checking
          (subscribe_activations before s handle tx).0
          handle).0 in
      (subscribe_activations now t handle tx').1 ≡ ok tt
unfolding subscribe_activations subscribe is_live on_subscription_stream_ended
    reap_closed_subscription reap is_stale
subscribe_activations_again before reaping checking now s handle tx tx' h gone =
    let q = subscribed before s handle tx h in
    let m = HashMap.insert s.subscriptions handle tx in
    rw (q.1) (
      ground (
        arith,
        q.0,
        gone,
        get-insert s.subscriptions handle handle tx,
        ==_refl handle,
        get-remove m handle handle,
      ))

is_live-reap :
    (is_closed : ℕ → Bool) (m : Subscribers) (handle : Text)
    → is_live is_closed (reap is_closed m handle) handle ≡ is_live is_closed m handle
unfolding is_live reap is_stale
is_live-reap is_closed m handle = ground (arith, get-remove m handle handle, ==_refl handle)

module _ (is_closed : ℕ → Bool) (s : State) (handle : Text) where
  -- The end of a stream, IS-05 or IS-08, asks for the watchdog exactly when the session is open and
  -- has no connected stream of either kind.
  pub stream_ended_iff :
      let idle =
        (has_session s handle ≡ true)
        × (is_live is_closed s.subscriptions handle ≡ false)
        × (is_live is_closed s.channelmapping_subscriptions handle ≡ false) in
      (((on_subscription_stream_ended is_closed is_closed s handle).1 ≡ true) ↔ idle)
      × (((on_channelmapping_subscription_stream_ended is_closed is_closed s handle).1 ≡ true)
          ↔ idle)
  unfolding on_subscription_stream_ended on_channelmapping_subscription_stream_ended
      has_any_activation_subscription has_active_subscription has_active_channelmapping_subscription
      reap_closed_subscription reap_closed_channelmapping_subscription
  stream_ended_iff = ground (
    arith,
    is_live-reap is_closed s.subscriptions handle,
    is_live-reap is_closed s.channelmapping_subscriptions handle,
  )
