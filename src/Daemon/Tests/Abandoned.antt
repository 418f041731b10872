-- ===== src/Daemon/Tests/Abandoned.antt =====
-- Watchdogs on the daemon of the run.
use nvnmos.Common.{
  nat_Eq, text_Eq, text_eq, Text, ℕ, ◌≡◌, refl, ◌⊎◌, true, false, Option, none, some,
}
use nvnmos.HashMap
use nvnmos.HashMap.{HashMap}
use nvnmos.Daemon.Status.{ok}
use nvnmos.Daemon.Sessions.{CloseOutcome, CloseSessionFfi}
use nvnmos.Daemon.Closing.{close_session}
use nvnmos.Daemon.Watchdogs.{from_env, start_subscribe_timeout, fire, SessionGc}
use nvnmos.Daemon.Watchdogs.Firing.{is_abandoned, fire_closes}
use nvnmos.Daemon.Tests.Run.{no_port, second, added, added-IsValid}

abbrev no_number : Text → Option ℕ
no_number _ = none

abbrev unset : Text → Option Text
unset _ = none

-- The second session has not subscribed, and its watchdog is task 3.
abbrev watching : SessionGc
watching =
    start_subscribe_timeout
      (record {
        config = from_env no_number unset;
        watchdogs = HashMap.empty;
        sleeping = HashMap.empty;
      })
      3 second

fire_closes_example :
    ((is_abandoned no_port added.state second ≡ true)
      × (o : CloseOutcome × CloseSessionFfi) × (close_session added.state second
          ≡ ((fire no_port watching added.state 3).1, ok o))
      × ((fire no_port watching added.state 3).2 ≡ some o))
    ⊎ ((is_abandoned no_port added.state second ≡ false)
        × ((fire no_port watching added.state 3).1 ≡ added.state)
        × ((fire no_port watching added.state 3).2 ≡ none))
unfolding start_subscribe_timeout from_env HashMap.get HashMap.insert HashMap.empty HashMap.remove
    text_eq
fire_closes_example = fire_closes added added-IsValid no_port watching 3 second 60 refl
