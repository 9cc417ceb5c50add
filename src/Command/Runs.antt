-- ===== src/Command/Runs.antt =====
-- Concrete commands of main.go.
use tunnelmanager.Prelude.{
  ◌++◌, ◌∷◌, ◌≡◌, Bytes, Option, [], codes, drop, drop-append_left, false, length, none, pos, refl,
  some, take, take-append_left, text_eq, true,
}
use tunnelmanager.Manager.Samples.{yaml, disk, idle}
use tunnelmanager.Command.{Flags, run_command, wants_background, forks, cmd_start}
use tunnelmanager.Manager.Logging.{new_log_buffer}
use tunnelmanager.Manager.Config.{default_config}
use tunnelmanager.Manager.Control.{Request, Json, handle_control}
use tunnelmanager.Manager.Control.Exchange.{
  Params, bare, of_name, of_group, of_tunnel, of_logs, Wire,
}
use tunnelmanager.Manager.Operations.Steps.{removes, step}
use tunnelmanager.Command.Meaning.{means_rm, manager_after, command-step}
use tunnelmanager.Command.Start.{child_args, start_child}

-- A coding of the names and requests of the example.
abbrev params_text : Params → Bytes
params_text (of_name n) = n
params_text (of_group g) = g
params_text (of_tunnel tc) = []
params_text (of_logs n k) = n
params_text bare = []

abbrev read_request : Bytes → Option Request
read_request [] = none
read_request (i ∷ []) = none
read_request (i ∷ n ∷ b) = some (record { method = take n b; params = drop n b; id = i })

abbrev wire : Wire
wire = record {
  params_text = params_text;
  request_text = λ r. r.id ∷ length r.method ∷ (r.method ++ r.params);
  read_request = read_request;
  response_text = λ r. [];
  read_response = λ b. none;
}

reads : (r : Request) → wire.read_request (wire.request_text r) ≡ some r
reads r = rw (take-append_left r.method r.params, drop-append_left r.method r.params) refl

abbrev json : Json
json = record {
  group_params = λ b. some b;
  name_params = λ b. some b;
  tunnel_params = λ b. none;
  logs_params = λ b. none;
  of_list = λ l. some [];
  of_status = λ s. some [];
  of_lines = λ l. some [];
}

abbrev flags : Flags
flags = record { add_flags = λ a. none; logs_flags = λ a. none }

-- tunnelmanager rm a
command-step_example :
    manager_after wire
      (handle_control yaml json (new_log_buffer (pos 1)))
      true
      (run_command flags (codes "rm" ∷ (97 ∷ []) ∷ []))
      (idle (disk true))
    ≡ step yaml (removes (97 ∷ [])) (idle (disk true))
command-step_example =
    command-step flags wire yaml json (new_log_buffer (pos 1)) (codes "rm" ∷ (97 ∷ []) ∷ [])
      (removes (97 ∷ [])) (idle (disk true)) reads refl (means_rm (97 ∷ []) [])

-- tunnelmanager start --background, and with another flag before it
start_child_example :
    let prog = codes "t" in
    (cmd_start false
        (some default_config)
        (prog ∷ codes "start" ∷ codes "-v" ∷ codes "--background" ∷ [])
      ≡ forks (child_args prog (codes "--background" ∷ [])))
    × (cmd_start false (some default_config) (child_args prog (codes "--background" ∷ []))
        ≡ forks (child_args prog (codes "--background" ∷ [])))
unfolding wants_background text_eq
start_child_example =
    start_child default_config default_config (codes "t") (codes "-v") (codes "--background" ∷ [])
      refl
