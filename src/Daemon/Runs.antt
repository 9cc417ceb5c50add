-- ===== src/Daemon/Runs.antt =====
-- A concrete daemon of main.go, which is asked to stop.
use tunnelmanager.Prelude.{◌∷◌, ◌≡◌, ◌⊎◌, [], codes, false, none, pos, refl, some, true}
use tunnelmanager.Manager.Tunnels.Invariant.{Inv}
use tunnelmanager.Manager.Samples.{yaml, disk, idle}
use tunnelmanager.Manager.Tunnels.{start, new_manager}
use tunnelmanager.Daemon.{
  Daemon, hung_up, terminated, sleep_over, main_turn, open_daemon, daemon_turns,
}
use tunnelmanager.Manager.Logging.{LogBuffer, new_log_buffer}
use tunnelmanager.Manager.Control.{Request, Json}
use tunnelmanager.Daemon.Ends.{stop_ends, stop_events}
use tunnelmanager.Daemon.Steps.{daemon-Inv, late, Idle}

abbrev json : Json
json = record {
  group_params = λ b. some b;
  name_params = λ b. some b;
  tunnel_params = λ b. none;
  logs_params = λ b. none;
  of_list = λ l. some [];
  of_status = λ s. some [];
  of_lines = λ l. some [];
}

abbrev logs : LogBuffer
logs = new_log_buffer (pos 1)

abbrev stop_request : Request
stop_request = record { method = codes "stop"; params = []; id = 1 }

abbrev fresh : Daemon
fresh = record {
  manager = start (new_manager (idle (disk true)).cfg [] (disk true));
  timers = 0;
  shutdown = false;
  stopped = false;
  ended = false;
}

daemon-Inv_example :
    let es = hung_up ∷ terminated ∷ main_turn ∷ sleep_over ∷ main_turn ∷ [] in
    let x = daemon_turns yaml json logs es fresh in
    Inv x.manager × ((late yaml json logs es fresh ≡ true) ⊎ Idle x)
unfolding open_daemon
daemon-Inv_example =
    daemon-Inv yaml json logs (idle (disk true)).cfg (disk true) true fresh
      (hung_up ∷ terminated ∷ main_turn ∷ sleep_over ∷ main_turn ∷ []) refl

stop_ends_example :
    let all = stop_events stop_request (hung_up ∷ []) [] [] [] in
    let x = daemon_turns yaml json logs all fresh in
    (x.ended ≡ true) × ((late yaml json logs all fresh ≡ true) ⊎ (x.manager.tunnels ≡ []))
stop_ends_example =
    stop_ends yaml json logs stop_request (hung_up ∷ []) [] [] [] fresh refl refl refl
