-- ===== src/Daemon/Watchdogs/Firing.antt =====
-- What a watchdog may close.
use nvnmos.Common.{
  nat_Eq, text_Eq, Text, codes, ℕ, ◌≤◌, ◌≡◌, refl, ap, ◌⊎◌, inl, inr, Bool, true, false, ◌&&◌, not,
  Option, none, some, arith, leb, Bool-cases, Option-cases,
}
use nvnmos.HashMap
use nvnmos.HashMap.{HashMap}
use nvnmos.Daemon.State.{State}
use nvnmos.Daemon.Status.{ok}
use nvnmos.Daemon.Sessions.{CloseOutcome, CloseSessionFfi}
use nvnmos.Daemon.Closing.{close_session}
use nvnmos.Daemon.Streams.{has_session, has_any_activation_subscription}
use nvnmos.Daemon.Steps.{System}
use nvnmos.Daemon.Steps.Valid.{IsValid}
use nvnmos.Daemon.Promises.Close.{close_session_answers}
use nvnmos.Daemon.Watchdogs.{parse_integer, read_integer, from_env, wake, fire, SessionGc}

-- A session is abandoned if it is open and none of its activation streams is live.
abbrev pub is_abandoned : (ℕ → Bool) → State → Text → Bool
is_abandoned is_closed s handle =
    has_session s handle && not (has_any_activation_subscription is_closed s handle)

module _ (is_closed : ℕ → Bool) (s : State) (handle : Text) where
  wake-kept : is_abandoned is_closed s handle ≡ false → wake is_closed s handle ≡ (s, none)
  unfolding wake
  wake-kept h = elim (Bool-cases (has_session s handle)) [
    | inr k ↦ rw k refl
    | inl k ↦
        let live : has_any_activation_subscription is_closed s handle ≡ true =
          ground (arith, h, k) in
        rw (k, live) refl
  ]

  wake-closes :
      (t : State) (o : CloseOutcome × CloseSessionFfi)
      → is_abandoned is_closed s handle ≡ true
      → close_session s handle ≡ (t, ok o)
      → wake is_closed s handle ≡ (t, some o)
  unfolding wake
  wake-closes t o h e =
      let there : has_session s handle ≡ true = ground (arith, h) in
      let quiet : has_any_activation_subscription is_closed s handle ≡ false = ground (arith, h) in
      rw (there, quiet, ap (λ r. r.1) e, ap (λ r. r.0) e) refl

  -- A task that sleeps for the session does what there is to do.
  fire-wake :
      (gc : SessionGc) (task timeout : ℕ) (t : State) (c : Option (CloseOutcome × CloseSessionFfi))
      → HashMap.get gc.sleeping task ≡ some (handle, timeout)
      → wake is_closed s handle ≡ (t, c)
      → ((fire is_closed gc s task).1 ≡ t) × ((fire is_closed gc s task).2 ≡ c)
  unfolding fire
  fire-wake gc task timeout t c h e = rw (h, fire) (rw e (refl, refl))

-- On a valid system, a watchdog that wakes closes its session, as `CloseSession` does and with success,
-- exactly if the session is abandoned; otherwise it changes nothing of the state.
pub fire_closes :
    (y : System) (v : IsValid y) (is_closed : ℕ → Bool) (gc : SessionGc) (task : ℕ) (handle : Text)
    (timeout : ℕ)
    → HashMap.get gc.sleeping task ≡ some (handle, timeout)
    → let r = fire is_closed gc y.state task in
      ((is_abandoned is_closed y.state handle ≡ true)
        × (o : CloseOutcome × CloseSessionFfi) × (close_session y.state handle ≡ (r.1, ok o))
        × (r.2 ≡ some o))
      ⊎ ((is_abandoned is_closed y.state handle ≡ false) × (r.1 ≡ y.state) × (r.2 ≡ none))
fire_closes y v is_closed gc task handle timeout h =
    elim (Bool-cases (is_abandoned is_closed y.state handle)) [
      | inr a ↦
          let (p, q) =
            fire-wake is_closed y.state handle gc task timeout y.state none h
              (wake-kept is_closed y.state handle a) in
          inr (a, p, q)
      | inl a ↦ elim (close_session_answers y v handle) [
        | inl (n, _) ↦ absurd (ground (arith, a, n))
        | inr (_, o, e) ↦
            let t = (close_session y.state handle).0 in
            let done : close_session y.state handle ≡ (t, ok o) = ap (λ r. (t, r)) e in
            let (p, q) =
              fire-wake is_closed y.state handle gc task timeout t (some o) h
                (wake-closes is_closed y.state handle t o a done) in
            inl (a, o, rw p done, q)
      ]
    ]

read_integer-least :
    (parse : Text → Option ℕ) (value : Option Text) (default least : ℕ)
    → least ≤ default
    → least ≤ read_integer parse value default least
unfolding read_integer parse_integer
read_integer-least parse none default least h = h
read_integer-least parse (some value) default least h = elim (Option-cases (parse value)) [
  | inl p ↦ ground (arith, p, h)
  | inr (n, p) ↦ elim (Bool-cases (leb least n)) [
    | inl l ↦ ground (arith, p, l)
    | inr l ↦ ground (arith, p, l, h)
  ]
]

-- Whatever the environment says, a session has at least a second to subscribe.
from_env-subscribe_timeout :
    (parse : Text → Option ℕ) (env : Text → Option Text)
    → 1 ≤ (from_env parse env).subscribe_timeout
unfolding from_env
from_env-subscribe_timeout parse env =
    read_integer-least parse (env (codes "NVNMOSD_SESSION_SUBSCRIBE_TIMEOUT_SEC")) 60 1
      (omega arith)
