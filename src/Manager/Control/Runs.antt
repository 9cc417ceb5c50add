-- ===== src/Manager/Control/Runs.antt =====
-- A concrete request on the control socket of manager/manager.go.
use tunnelmanager.Prelude.{◌∷◌, ◌≡◌, [], codes, none, pos, some, text_eq, true}
use tunnelmanager.Manager.Samples.{yaml, disk, idle}
use tunnelmanager.Manager.Logging.{new_log_buffer}
use tunnelmanager.Manager.Control.{Request, Json, method_of, handle_control}
use tunnelmanager.Manager.Control.Requests.{handle_control-step}
use tunnelmanager.Manager.Operations.Steps.{removes, step}

-- A decoder that takes the parameters as they are.
abbrev json : Json
json = record {
  group_params = λ b. some b;
  name_params = λ b. some b;
  tunnel_params = λ b. none;
  logs_params = λ b. none;
  of_list = λ l. some [];
  of_status = λ s. some [];
  of_lines = λ l. some [];
}

abbrev removal : Request
removal = record { method = codes "remove"; params = 97 ∷ []; id = 4 }

handle_control-step_example :
    ((handle_control yaml json (new_log_buffer (pos 1)) removal (idle (disk true))).1
      ≡ step yaml (removes (97 ∷ [])) (idle (disk true)))
    × ((handle_control yaml json (new_log_buffer (pos 1)) removal (idle (disk true))).0.id ≡ 4)
unfolding method_of text_eq
handle_control-step_example =
    handle_control-step yaml json (new_log_buffer (pos 1)) removal (idle (disk true))
