-- ===== src/Daemon.antt =====
-- main.go: runDaemon, its control handler, its signals and its end, as turns of its goroutines.
pub mod Steps
pub mod Ends
mod Runs
use tunnelmanager.Prelude.{
  ◌-◌, ◌∷◌, Bool, List, Option, [], codes, false, if◌then◌else◌, ltb, none, some, suc, text_eq,
  true, ℕ,
}
use tunnelmanager.Manager.Tunnels.{start, stop, Manager, new_manager}
use tunnelmanager.Manager.Operations.{reload}
use tunnelmanager.Manager.Samples.{disk}
use tunnelmanager.Manager.Logging.{LogBuffer}
use tunnelmanager.Manager.Config.{Config, Yaml, Disk}
use tunnelmanager.Manager.Control.{Request, Response, Json, handle_control}

-- `timers` counts the goroutines that sleep before they trigger the shutdown; `stopped` says that
-- main has called mgr.Stop, and `ended` that the process has ended.
pub record Daemon : Type 0 where
  pub manager : Manager
  pub timers : ℕ
  pub shutdown : Bool
  pub stopped : Bool
  pub ended : Bool

-- What a goroutine of the daemon gets: a control request, SIGHUP, SIGINT or SIGTERM, the end of a
-- sleep, an error of ServeControl, and the turn of main, which waits for the shutdown.
pub data Event : Type 0 where
  requested : Request → Event
  hung_up terminated sleep_over control_failed main_turn : Event

-- runDaemon up to its wait; `pidfile` says whether the pidfile could be written.
unfoldable pub open_daemon : Config → Disk → Bool → Option Daemon
open_daemon cfg files pidfile =
    if pidfile
    then some (record {
      manager = start (new_manager cfg [] files);
      timers = 0;
      shutdown = false;
      stopped = false;
      ended = false;
    })
    else none

unfoldable pub trigger_shutdown : Daemon → Daemon
trigger_shutdown d = record d { shutdown = true }

-- The handler of the control server.
unfoldable pub handler : Yaml → Json → LogBuffer → Request → Daemon → Response × Daemon
handler y j b req d =
    let r = handle_control y j b req d.manager in
    (
      r.0,
      record d {
        manager = r.1;
        timers = if text_eq req.method (codes "stop") then suc d.timers else d.timers;
      },
    )

unfoldable pub sleep_turn : Daemon → Daemon
unfolding trigger_shutdown
sleep_turn d = if ltb 0 d.timers then trigger_shutdown (record d { timers = d.timers - 1 }) else d

-- main from `<-shutdown` on: mgr.Stop(), and in a turn of its own the end of the process, between
-- which the other goroutines may run.
unfoldable pub shut_down : Daemon → Daemon
shut_down d =
    if d.stopped
    then record d { ended = true }
    else if d.shutdown
    then record d { manager = stop d.manager; stopped = true }
    else d

unfoldable pub daemon_turn : Yaml → Json → LogBuffer → Event → Daemon → Daemon
unfolding handler sleep_turn trigger_shutdown shut_down
daemon_turn y j b (requested req) d = (handler y j b req d).1
daemon_turn y j b hung_up d = record d { manager = (reload y d.manager).1 }
daemon_turn y j b terminated d = trigger_shutdown d
daemon_turn y j b sleep_over d = sleep_turn d
daemon_turn y j b control_failed d = trigger_shutdown d
daemon_turn y j b main_turn d = shut_down d

-- The turns up to the end of the process.
unfoldable pub daemon_turns : Yaml → Json → LogBuffer → List Event → Daemon → Daemon
unfolding daemon_turn
daemon_turns y j b [] d = d
daemon_turns y j b (e ∷ es) d =
    let rest = daemon_turns y j b es (daemon_turn y j b e d) in if d.ended then d else rest
