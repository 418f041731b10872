-- ===== src/Daemon/Watchdogs.antt =====
-- Sessions that their clients abandon are closed: rust/nvnmosd/src/session_gc.rs, with the readers of
-- src/env_config.rs. A watchdog is a task that sleeps, and then takes the lock of the state.
pub mod Firing
use nvnmos.Common.{
  ◌==◌, nat_Eq, text_Eq, Text, codes, ℕ, Bool, true, false, not, Option, none, some, List, [], ◌∷◌,
  leb, if◌then◌else◌, any,
}
use nvnmos.HashMap
use nvnmos.HashMap.{HashMap}
use nvnmos.Daemon.State.{State}
use nvnmos.Daemon.Status.{Result, ok, err}
use nvnmos.Daemon.Sessions.{CloseOutcome, CloseSessionFfi}
use nvnmos.Daemon.Closing.{closed, close_session}
use nvnmos.Daemon.Streams.{has_session, subscribe_activations, has_any_activation_subscription}

pub data EnvDefault : Type 0 where
  opt_out opt_in : EnvDefault

abbrev pub listed : Text → List Text → Bool
listed value tokens = any (λ (t : Text). t == value) tokens

abbrev pub enable_tokens : List Text
enable_tokens =
    codes "1"
    ∷ codes "true"
    ∷ codes "TRUE"
    ∷ codes "yes"
    ∷ codes "YES"
    ∷ codes "on"
    ∷ codes "ON"
    ∷ []

abbrev pub disable_tokens : List Text
disable_tokens =
    codes "0"
    ∷ codes "false"
    ∷ codes "FALSE"
    ∷ codes "off"
    ∷ codes "OFF"
    ∷ codes "no"
    ∷ codes "NO"
    ∷ []

-- `parse_env_bool`
unfoldable pub parse_env_bool : Option Text → EnvDefault → Bool
parse_env_bool none opt_out = true
parse_env_bool none opt_in = false
parse_env_bool (some value) opt_out = not (listed value disable_tokens)
parse_env_bool (some value) opt_in = listed value enable_tokens

-- `parse_integer`; `parse` is `str::parse` for the type
unfoldable pub parse_integer : (Text → Option ℕ) → Text → ℕ → Option ℕ
parse_integer parse value least = elim (parse value) [
  | none ↦ none
  | some parsed ↦ if leb least parsed then some parsed else none
]

-- `read_integer`; `value` is what the environment has, trimmed
unfoldable pub read_integer : (Text → Option ℕ) → Option Text → (default least : ℕ) → ℕ
unfolding parse_integer
read_integer parse none default least = default
read_integer parse (some value) default least = elim (parse_integer parse value least) [
  | none ↦ default
  | some parsed ↦ parsed
]

-- Seconds
pub record SessionGcConfig : Type 0 where
  pub enabled : Bool
  pub subscribe_timeout : ℕ
  pub resubscribe_timeout : ℕ

-- `SessionGcConfig::from_env`; `env` gives the trimmed value of a variable
unfoldable pub from_env : (Text → Option ℕ) → (Text → Option Text) → SessionGcConfig
unfolding parse_env_bool read_integer
from_env parse env = record {
  enabled = parse_env_bool (env (codes "NVNMOSD_SESSION_GC")) opt_out;
  subscribe_timeout = read_integer parse (env (codes "NVNMOSD_SESSION_SUBSCRIBE_TIMEOUT_SEC")) 60 1;
  resubscribe_timeout =
      read_integer parse (env (codes "NVNMOSD_SESSION_RESUBSCRIBE_TIMEOUT_SEC")) 5 0;
}

-- The watchdog of each session, by the number of its task, and the tasks that sleep, with the session
-- and the time that each has.
pub record SessionGc : Type 0 where
  pub config : SessionGcConfig
  pub watchdogs : HashMap Text ℕ
  pub sleeping : HashMap ℕ (Text × ℕ)

-- `SessionGc::cancel_timeout`
unfoldable pub cancel_timeout : SessionGc → Text → SessionGc
cancel_timeout gc handle = elim (HashMap.get gc.watchdogs handle) [
  | none ↦ gc
  | some task ↦ record gc {
    watchdogs = HashMap.remove gc.watchdogs handle;
    sleeping = HashMap.remove gc.sleeping task;
  }
]

-- `SessionGc::start_timeout`; `task` is the number of the new task
unfoldable pub start_timeout : SessionGc → ℕ → Text → ℕ → SessionGc
unfolding cancel_timeout
start_timeout gc task handle timeout =
    if gc.config.enabled
    then (let quiet = cancel_timeout gc handle in
        record quiet {
          watchdogs = HashMap.insert quiet.watchdogs handle task;
          sleeping = HashMap.insert quiet.sleeping task (handle, timeout);
        })
    else gc

-- `SessionGc::start_subscribe_timeout`
unfoldable pub start_subscribe_timeout : SessionGc → ℕ → Text → SessionGc
unfolding start_timeout
start_subscribe_timeout gc task handle = start_timeout gc task handle gc.config.subscribe_timeout

-- `SessionGc::start_resubscribe_timeout`
unfoldable pub start_resubscribe_timeout : SessionGc → ℕ → Text → SessionGc
unfolding start_timeout
start_resubscribe_timeout gc task handle =
    start_timeout gc task handle gc.config.resubscribe_timeout

-- What a task does under the lock when it wakes: the state, and what it closed.
unfoldable pub wake : (ℕ → Bool) → State → Text → State × Option (CloseOutcome × CloseSessionFfi)
wake is_closed s handle =
    if not (has_session s handle)
    then (s, none)
    else if has_any_activation_subscription is_closed s handle
    then (s, none)
    else (let (s', r) = close_session s handle in
        elim r [ err c ↦ (s', none) | ok o ↦ (s', some o) ])

-- A task that was not aborted wakes once.
unfoldable pub fire :
    (ℕ → Bool) → SessionGc → State → ℕ → SessionGc × State × Option (CloseOutcome × CloseSessionFfi)
unfolding wake
fire is_closed gc s task = elim (HashMap.get gc.sleeping task) [
  | none ↦ (gc, s, none)
  | some (handle, timeout) ↦
      let (s', closed) = wake is_closed s handle in
      (record gc { sleeping = HashMap.remove gc.sleeping task }, s', closed)
]

-- The last lines of a task that closed its session.
unfoldable pub forget_watchdog : SessionGc → Text → SessionGc
forget_watchdog gc handle = record gc { watchdogs = HashMap.remove gc.watchdogs handle }

-- The locked section of the handler `subscribe_activations` (src/main.rs).
unfoldable pub subscribe_and_cancel :
    (ℕ → Bool) → SessionGc → State → Text → ℕ → SessionGc × State × Result (Unit {0})
unfolding cancel_timeout
subscribe_and_cancel is_closed gc s handle tx =
    let (s', r) = subscribe_activations is_closed s handle tx in
    elim r [ err c ↦ (gc, s', err c) | ok u ↦ (cancel_timeout gc handle, s', ok u) ]
