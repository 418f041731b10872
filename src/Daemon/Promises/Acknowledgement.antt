-- ===== src/Daemon/Promises/Acknowledgement.antt =====
-- What the acknowledgement of activations promises: `complete_activation`,
-- `complete_channelmapping_activation` and the end of `route_activation`
-- (rust/nvnmosd/src/state.rs and src/main.rs).
use nvnmos.Daemon.Unmoved.{dispatch-Unmoved}
use nvnmos.Common.{
  ◌==◌, ==_iff, ==_refl, nat_Eq, text_Eq, Text, ℕ, ◌≡◌, refl, sym, ◌∙◌, ◌↔◌, inl, inr, Bool, true,
  Option, none, some, arith, if◌then◌else◌, Option-cases,
}
use nvnmos.HashMap
use nvnmos.HashMap.{get-remove, HashMap}
use nvnmos.Daemon.Types.{side_Eq, name_key_Eq, seed_key_Eq, Side, ResourceEntry, PendingActivation}
use nvnmos.Daemon.State.{State}
use nvnmos.Daemon.Status.{not_found, ok, err}
use nvnmos.Daemon.Streams.{has_session}
use nvnmos.Daemon.Resources.{name_key}
use nvnmos.Daemon.Activations.{
  dispatch_activation, complete_activation, cleanup_pending_activation, verdict, finish_route, Sent,
  AckOutcome, Routed, Received, routed, answer, timeout, disconnected,
}
use nvnmos.Daemon.Promises.Routing.{dispatch_activation-IsRouted, IsRouted}

-- The activation waits for the session, on the channel.
abbrev pub Waits : HashMap Text PendingActivation → Text → Text → ℕ → Type 0
Waits pending activation handle ack =
    HashMap.get pending activation ≡ some (record { session_handle = handle; ack_tx = ack })

complete_ok :
    (s : State) (handle activation : Text) (ack : ℕ)
    → (complete_activation s handle activation).1 ≡ ok ack
    → (has_session s handle ≡ true) × Waits s.pending_activations activation handle ack
unfolding complete_activation
complete_ok s handle activation ack h =
    elim (Option-cases (HashMap.get s.pending_activations activation)) [
      | inl q ↦ absurd (ground (arith, q))
      | inr (p, q) ↦ (ground arith, ground (arith, q, ==_iff p.session_handle handle))
    ]

complete_waiting :
    (s : State) (handle activation : Text) (ack : ℕ)
    → has_session s handle ≡ true
    → Waits s.pending_activations activation handle ack
    → (complete_activation s handle activation).1 ≡ ok ack
unfolding complete_activation
complete_waiting s handle activation ack known w = ground (arith, ==_refl handle)

-- An acknowledgement is accepted exactly when its session is open and the activation waits for that
-- session, and it is then the answer on the channel of that activation.
pub complete_activation_iff :
    (s : State) (handle activation : Text) (ack : ℕ)
    → ((complete_activation s handle activation).1 ≡ ok ack)
      ↔ ((has_session s handle ≡ true) × Waits s.pending_activations activation handle ack)
complete_activation_iff s handle activation ack =
    (complete_ok s handle activation ack, λ (k, w). complete_waiting s handle activation ack k w)

-- An activation is acknowledged once: after an acknowledgement was accepted, any acknowledgement of
-- the same activation, by any session, gets NOT_FOUND and changes nothing.
pub complete_activation_once :
    (s : State) (handle other activation : Text) (ack : ℕ)
    → (complete_activation s handle activation).1 ≡ ok ack
    → complete_activation (complete_activation s handle activation).0 other activation
      ≡ ((complete_activation s handle activation).0, err not_found)
unfolding complete_activation
complete_activation_once s handle other activation ack h =
    ground (arith, get-remove s.pending_activations activation activation, ==_refl activation)

-- What is routed for a resource can be acknowledged by the session that owns the resource, if it is
-- open, on the channel on which the daemon waits.
pub complete_activation-dispatch_activation :
    (is_closed : ℕ → Bool) (send : ℕ → Sent) (s : State) (seed : Text) (side : Side) (name : Text)
    (file : Option Text) (r : Routed) (id : Text) (e : ResourceEntry)
    → HashMap.get s.by_name (name_key seed side name) ≡ some id
    → HashMap.get s.resources id ≡ some e
    → has_session s e.session_handle ≡ true
    → (dispatch_activation is_closed send s seed side name file).1 ≡ routed r
    → (complete_activation
        (dispatch_activation is_closed send s seed side name file).0
        e.session_handle
        r.activation_handle).1
      ≡ ok r.ack
complete_activation-dispatch_activation is_closed send s seed side name file r id e named there
      known h =
    complete_waiting t e.session_handle r.activation_handle r.ack
      (rw (dispatch-Unmoved is_closed s seed send side name file).sessions known)
      (rw (sym owner) (i.waits r.activation_handle ∙ rw (==_refl r.activation_handle) refl))
  where
    t : State
    t = (dispatch_activation is_closed send s seed side name file).0

    i : IsRouted is_closed send s t (name_key seed side name) file r
    i = dispatch_activation-IsRouted is_closed send s seed side name file r h

    owner : i.resource.session_handle ≡ e.session_handle
    owner = ground (arith, i.found, i.there, named, there)

-- When `route_activation` has an answer, or has waited long enough, nothing waits for it, and the
-- other activations wait as before; it accepts exactly when the client answered with success.
pub finish_route-verdict :
    (s : State) (r : Routed) (received : Received) (a : Text)
    → (HashMap.get (finish_route s r received).0.pending_activations a
        ≡ (if r.activation_handle == a then none else HashMap.get s.pending_activations a))
      × (((finish_route s r received).1 ≡ none)
          ↔ ((o : AckOutcome) × (received ≡ answer o) × (o.success ≡ true)))
unfolding finish_route cleanup_pending_activation verdict
finish_route-verdict s r (answer o) a = (
  get-remove s.pending_activations r.activation_handle a,
  (λ h. (o, refl, ground arith), λ (o', q, h). ground (arith, accepted o' q)),
)
  where
    accepted : (o' : AckOutcome) → answer o ≡ answer o' → o ≡ o'
    accepted o' q = cc
finish_route-verdict s r timeout a = (
  get-remove s.pending_activations r.activation_handle a,
  (λ h. absurd (ground arith), λ (o, q, h). absurd (ground arith)),
)
finish_route-verdict s r disconnected a = (
  get-remove s.pending_activations r.activation_handle a,
  (λ h. absurd (ground arith), λ (o, q, h). absurd (ground arith)),
)
