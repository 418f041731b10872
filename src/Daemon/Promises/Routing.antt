-- ===== src/Daemon/Promises/Routing.antt =====
-- What the activation router of rust/nvnmosd/src/state.rs promises: an event goes to the stream of
-- the session that owns the resource, and only that session's acknowledgement counts, once.
use nvnmos.Common.{
  ◌==◌, ==_refl, nat_Eq, text_Eq, Text, ℕ, ◌≡◌, inl, inr, Bool, true, false, Option, none, some,
  arith, if◌then◌else◌, Bool-cases, Option-cases,
}
use nvnmos.HashMap
use nvnmos.HashMap.{get-remove, get-insert, HashMap}
use nvnmos.Daemon.Types.{side_Eq, name_key_Eq, seed_key_Eq, Side, NameKey, ResourceEntry}
use nvnmos.Daemon.State.{activation_handle, State}
use nvnmos.Daemon.Streams.{Subscribers, is_live, is_stale, reap, reap_closed_subscription}
use nvnmos.Daemon.Resources.{name_key}
use nvnmos.Daemon.Activations.{
  stream_of, send_activation, dispatch_activation, Sent, ActivationEvent, Routed,
  ActivationDispatch, delivered, routed, no_resource, no_subscriber,
}

-- An activation was handed to the stream of the owner, and waits for it.
pub record IsRouted (is_closed : ℕ → Bool) (send : ℕ → Sent) (s t : State) (key : NameKey)
    (file : Option Text) (r : Routed) : Type 0 where
  pub id : Text
  pub resource : ResourceEntry
  pub found : HashMap.get s.by_name key ≡ some id
  pub there : HashMap.get s.resources id ≡ some resource
  pub stream : HashMap.get s.subscriptions resource.session_handle ≡ some r.tx
  pub connected : is_closed r.tx ≡ false
  pub sent : send r.tx ≡ delivered
  pub event : r.event ≡ record {
    resource_handle = id;
    activation_handle = r.activation_handle;
    transport_file = file;
    side = key.side;
  }
  pub waits :
      (a : Text)
      → HashMap.get t.pending_activations a ≡ (
          if r.activation_handle == a
          then some (record { session_handle = resource.session_handle; ack_tx = r.ack })
          else HashMap.get s.pending_activations a)

abbrev event_for : State → Text → Side → Option Text → ActivationEvent
event_for s id side file = record {
  resource_handle = id;
  activation_handle = activation_handle s.next_activation_id;
  transport_file = file;
  side = side;
}

module _ (is_closed : ℕ → Bool) (m : Subscribers) (handle : Text) where
  pub live_stream :
      is_live is_closed m handle ≡ true
      → (tx : ℕ) × (HashMap.get m handle ≡ some tx) × (is_closed tx ≡ false)
  unfolding is_live
  live_stream l = elim (Option-cases (HashMap.get m handle)) [
    | inl n ↦ absurd (ground (arith, n))
    | inr (tx, k) ↦ (tx, k, ground arith)
  ]

  pub get-reap_live :
      (tx : ℕ)
      → HashMap.get m handle ≡ some tx
      → is_closed tx ≡ false
      → HashMap.get (reap is_closed m handle) handle ≡ some tx
  unfolding reap is_stale
  get-reap_live tx k o = ground arith

  pub get-reap_quiet :
      is_live is_closed m handle ≡ false → HashMap.get (reap is_closed m handle) handle ≡ none
  unfolding is_live reap is_stale
  get-reap_quiet l = ground (arith, get-remove m handle handle, ==_refl handle)

-- A name that has no resource, an owner that has no open stream, or a send on the owner's stream.
pub dispatch_activation_cases {ℓ} :
    (is_closed : ℕ → Bool) (send : ℕ → Sent) (s : State) (seed : Text) (side : Side) (name : Text)
    (file : Option Text) (P : State × ActivationDispatch → Type ℓ)
    → P (s, no_resource)
    → ((id : Text) (r : ResourceEntry)
        → HashMap.get s.by_name (name_key seed side name) ≡ some id
        → HashMap.get s.resources id ≡ some r
        → is_live is_closed s.subscriptions r.session_handle ≡ false
        → P (reap_closed_subscription is_closed s r.session_handle, no_subscriber))
    → ((id : Text) (r : ResourceEntry) (tx : ℕ)
        → HashMap.get s.by_name (name_key seed side name) ≡ some id
        → HashMap.get s.resources id ≡ some r
        → HashMap.get s.subscriptions r.session_handle ≡ some tx
        → is_closed tx ≡ false
        → P (
            send_activation send
              (reap_closed_subscription is_closed s r.session_handle)
              r.session_handle
              tx
              (event_for s id side file)))
    → P (dispatch_activation is_closed send s seed side name file)
unfolding dispatch_activation stream_of reap_closed_subscription
dispatch_activation_cases is_closed send s seed side name file P unknown silent reaches =
    elim (Option-cases (HashMap.get s.by_name (name_key seed side name))) [
      | inl q ↦ rw (q, dispatch_activation) unknown
      | inr (id, q) ↦ elim (Option-cases (HashMap.get s.resources id)) [
        | inl t ↦ rw (q, dispatch_activation) (rw (t, dispatch_activation) unknown)
        | inr (r, t) ↦
            rw (q, dispatch_activation)
              (rw (t, dispatch_activation)
                (elim (Bool-cases (is_live is_closed s.subscriptions r.session_handle)) [
                  | inr n ↦
                      rw (get-reap_quiet is_closed s.subscriptions r.session_handle n)
                        (silent id r q t n)
                  | inl l ↦
                      let (tx, k, o) = live_stream is_closed s.subscriptions r.session_handle l in
                      rw (get-reap_live is_closed s.subscriptions r.session_handle tx k o)
                        (reaches id r tx q t k o)
                ]))
      ]
    ]

pub dispatch_activation-IsRouted :
    (is_closed : ℕ → Bool) (send : ℕ → Sent) (s : State) (seed : Text) (side : Side) (name : Text)
    (file : Option Text) (r : Routed)
    → (dispatch_activation is_closed send s seed side name file).1 ≡ routed r
    → IsRouted is_closed send s
        (dispatch_activation is_closed send s seed side name file).0
        (name_key seed side name)
        file
        r
dispatch_activation-IsRouted is_closed send s seed side name file r =
    dispatch_activation_cases is_closed send s seed side name file
      (λ d. d.1 ≡ routed r → IsRouted is_closed send s d.0 (name_key seed side name) file r)
      (λ h. absurd (ground arith)) (λ id e q t n h. absurd (ground arith))
      (λ id e tx q t k o. sent id e tx q t k o)
  where
    sent :
        (id : Text) (e : ResourceEntry) (tx : ℕ)
        → HashMap.get s.by_name (name_key seed side name) ≡ some id
        → HashMap.get s.resources id ≡ some e
        → HashMap.get s.subscriptions e.session_handle ≡ some tx
        → is_closed tx ≡ false
        → (send_activation send
            (reap_closed_subscription is_closed s e.session_handle)
            e.session_handle
            tx
            (event_for s id side file)).1
          ≡ routed r
        → IsRouted is_closed send s
            (send_activation send
              (reap_closed_subscription is_closed s e.session_handle)
              e.session_handle
              tx
              (event_for s id side file)).0
            (name_key seed side name)
            file
            r
    sent id e tx q t k o h =
        unfold send_activation reap_closed_subscription in
        record {
          id = id;
          resource = e;
          found = q;
          there = t;
          stream = ground arith;
          connected = ground arith;
          sent = ground arith;
          event = ground arith;
          waits = λ a. ground (
            arith,
            get-insert s.pending_activations (activation_handle s.next_activation_id) a
                (record { session_handle = e.session_handle; ack_tx = s.next_activation_id }),
          );
        }
