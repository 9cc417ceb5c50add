-- ===== src/Command.antt =====
-- main.go: the commands that talk to the daemon, and start. Package flag is a parameter: what the
-- flag sets of add and logs make of their arguments.
pub mod Meaning
pub mod Start
pub mod Summary
mod Runs
use tunnelmanager.Prelude.{
  ◌++◌, ◌-◌, ◌||◌, ◌∷◌, Bool, Bytes, List, Option, [], codes, drop, err, false, if◌then◌else◌,
  length, none, not, ok, some, suc, take, text_eq, ℕ, ℤ,
}
use tunnelmanager.Forward.{AddParams, AddError, build_tunnel_config}
use tunnelmanager.Manager.Operations.{TunnelStatus}
use tunnelmanager.Manager.Logging.{lines}
use tunnelmanager.Manager.Config.{TunnelConfig, Config}
use tunnelmanager.Manager.Control.{Request}
use tunnelmanager.Manager.Control.Exchange.{Params, bare, of_name, of_group, of_tunnel, of_logs}

-- What a command comes to: a usage message, an error in a tunnel's flags, a control request, the
-- start of the daemon, init, or the ad-hoc modes.
pub data Command : Type 0 where
  usage starts_daemon shows_init runs_adhoc : Command
  bad_tunnel : AddError → Command
  sends : Bytes → Params → Command

-- The flag sets of add and logs: what they make of the arguments behind the command's name.
pub record Flags : Type 0 where
  pub add_flags : List Bytes → Option AddParams
  pub logs_flags : List Bytes → Option (Bytes × ℤ)

-- `if len(os.Args) < 3 { log.Fatal("usage: ...") }`
unfoldable pub with_arg : List Bytes → (Bytes → Command) → Command
with_arg [] f = usage
with_arg (arg ∷ args) f = f arg

unfoldable pub cmd_stop : Command
cmd_stop = sends (codes "stop") bare

unfoldable pub cmd_list : Command
cmd_list = sends (codes "list") bare

unfoldable pub cmd_save : Command
cmd_save = sends (codes "save") bare

unfoldable pub cmd_reload : Command
cmd_reload = sends (codes "reload") bare

unfoldable pub cmd_remove : List Bytes → Command
unfolding with_arg
cmd_remove args = with_arg args (λ name. sends (codes "remove") (of_name name))

unfoldable pub cmd_enable : List Bytes → Command
unfolding with_arg
cmd_enable args = with_arg args (λ name. sends (codes "enable") (of_name name))

unfoldable pub cmd_disable : List Bytes → Command
unfolding with_arg
cmd_disable args = with_arg args (λ name. sends (codes "disable") (of_name name))

unfoldable pub cmd_restart : List Bytes → Command
unfolding with_arg
cmd_restart args = with_arg args (λ name. sends (codes "restart") (of_name name))

unfoldable pub cmd_start_group : List Bytes → Command
unfolding with_arg
cmd_start_group args = with_arg args (λ group. sends (codes "start-group") (of_group group))

unfoldable pub cmd_stop_group : List Bytes → Command
unfolding with_arg
cmd_stop_group args = with_arg args (λ group. sends (codes "stop-group") (of_group group))

unfoldable pub cmd_add : Flags → List Bytes → Command
cmd_add fl args = elim (fl.add_flags args) [
  | none ↦ usage
  | some p ↦ elim (build_tunnel_config p) [
    | err e ↦ bad_tunnel e
    | ok tc ↦ sends (codes "add") (of_tunnel tc)
  ]
]

-- Without a name, the summary asks for the list.
unfoldable pub cmd_status : List Bytes → Command
cmd_status [] = sends (codes "list") bare
cmd_status (name ∷ args) = sends (codes "status") (of_name name)

unfoldable pub cmd_logs : Flags → List Bytes → Command
cmd_logs fl args = elim (fl.logs_flags args) [
  | none ↦ usage
  | some (name, lines) ↦ sends (codes "logs") (of_logs name lines)
]

-- The switch of main, on the arguments behind the program's name.
unfoldable pub run_command : Flags → List Bytes → Command
unfolding cmd_add cmd_status cmd_logs cmd_stop cmd_list cmd_save cmd_reload cmd_remove cmd_enable
    cmd_disable cmd_restart cmd_start_group cmd_stop_group
run_command fl [] = usage
run_command fl (c ∷ args) =
    if text_eq c (codes "start")
    then starts_daemon
    else if text_eq c (codes "stop")
    then cmd_stop
    else if text_eq c (codes "ls") || text_eq c (codes "list")
    then cmd_list
    else if text_eq c (codes "add")
    then cmd_add fl args
    else if text_eq c (codes "rm") || text_eq c (codes "remove")
    then cmd_remove args
    else if text_eq c (codes "enable")
    then cmd_enable args
    else if text_eq c (codes "disable")
    then cmd_disable args
    else if text_eq c (codes "restart")
    then cmd_restart args
    else if text_eq c (codes "save")
    then cmd_save
    else if text_eq c (codes "status")
    then cmd_status args
    else if text_eq c (codes "logs")
    then cmd_logs fl args
    else if text_eq c (codes "init")
    then shows_init
    else if text_eq c (codes "reload")
    then cmd_reload
    else if text_eq c (codes "start-group")
    then cmd_start_group args
    else if text_eq c (codes "stop-group")
    then cmd_stop_group args
    else runs_adhoc

-- The loop of cmdStart over os.Args[2:].
unfoldable pub wants_background : List Bytes → Bool
wants_background [] = false
wants_background (a ∷ args) =
    text_eq a (codes "--background") || text_eq a (codes "-background") || wants_background args

pub data StartRun : Type 0 where
  already_running load_failed : StartRun
  forks : List Bytes → StartRun  -- the argument vector of the child
  runs_daemon : Config → StartRun

-- cmdStart with os.Args; `loaded` is the result of LoadConfig.
unfoldable pub cmd_start : Bool → Option Config → List Bytes → StartRun
unfolding wants_background
cmd_start running loaded args = if running then already_running else elim loaded [
  | none ↦ load_failed
  | some cfg ↦
      if wants_background (drop 2 args)
      then forks (take 1 args ++ (codes "start" ∷ codes "--foreground" ∷ drop 3 args))
      else runs_daemon cfg
]

-- The counts of `status` without a name: all tunnels, those running, those stopped.
unfoldable pub count_running : List TunnelStatus → ℕ
count_running [] = 0
count_running (s ∷ ss) =
    let rest = count_running ss in
    if not (text_eq s.status (codes "stopped")) then suc rest else rest

unfoldable pub summary : List TunnelStatus → ℕ × ℕ × ℕ
unfolding count_running
summary ss = (length ss, count_running ss, length ss - count_running ss)
