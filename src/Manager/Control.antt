-- ===== src/Manager/Control.antt =====
-- manager/manager.go, HandleControl and Logs: one request on the control socket. encoding/json is
-- a parameter, and an error is told apart by its cause instead of its text.
pub mod Exchange
pub mod Requests
mod Runs
use tunnelmanager.Prelude.{
  ◌&&◌, ◌==◌, Bool, Bytes, List, Option, Result, codes, err, false, if◌then◌else◌, length, none,
  not, ok, some, text_eq, true, ℕ, ℤ,
}
use tunnelmanager.Manager.Operations.{
  list, status, save, add, remove, reload, enable, disable, restart, TunnelStatus,
}
use tunnelmanager.Manager.Tunnels.{
  stop, not_found, Manager, ManagerError, find_config, stop_group, start_group,
}
use tunnelmanager.Manager.Logging.{LogBuffer, lines}
use tunnelmanager.Manager.Config.{TunnelConfig, Yaml}
use tunnelmanager.Relay.Auth.{answer}

pub record Request : Type 0 where
  pub method : Bytes
  pub params : Bytes
  pub id : ℕ

pub data ControlError : Type 0 where
  invalid_params marshal_error : ControlError
  refused : ManagerError → ControlError
  unknown_method : Bytes → ControlError

-- `answer` stands for the fields Result and Error, of which one is set.
pub record Response : Type 0 where
  pub answer : Result ControlError Bytes
  pub id : ℕ

-- json.Unmarshal into the parameter types of the requests, and json.Marshal of the results.
pub record Json : Type 0 where
  pub group_params : Bytes → Option Bytes
  pub name_params : Bytes → Option Bytes
  pub tunnel_params : Bytes → Option TunnelConfig
  pub logs_params : Bytes → Option (Bytes × ℤ)
  pub of_list : List TunnelStatus → Option Bytes
  pub of_status : TunnelStatus → Option Bytes
  pub of_lines : List Bytes → Option Bytes

-- The cases of the switch on the method.
pub data Method : Type 0 where
  list_tunnels stop_all stop_in_group start_in_group : Method
  add_tunnel remove_tunnel enable_tunnel disable_tunnel restart_tunnel : Method
  save_config_file tunnel_state tunnel_logs reload_config : Method

unfoldable pub method_of : Bytes → Option Method
method_of s =
    if text_eq s (codes "list")
    then some list_tunnels
    else if text_eq s (codes "stop")
    then some stop_all
    else if text_eq s (codes "stop-group")
    then some stop_in_group
    else if text_eq s (codes "start-group")
    then some start_in_group
    else if text_eq s (codes "add")
    then some add_tunnel
    else if text_eq s (codes "remove")
    then some remove_tunnel
    else if text_eq s (codes "enable")
    then some enable_tunnel
    else if text_eq s (codes "disable")
    then some disable_tunnel
    else if text_eq s (codes "restart")
    then some restart_tunnel
    else if text_eq s (codes "save")
    then some save_config_file
    else if text_eq s (codes "status")
    then some tunnel_state
    else if text_eq s (codes "logs")
    then some tunnel_logs
    else if text_eq s (codes "reload")
    then some reload_config
    else none

-- Logs: only the buffer's lines for a configured name, or for the empty one.
unfoldable pub logs : LogBuffer → Bytes → ℤ → Manager → Result ManagerError (List Bytes)
logs lb name limit m =
    if not (length name == 0) && is_none (find_config name m.cfg.tunnels)
    then err (not_found name)
    else ok (lines name limit lb)
  where
    is_none : Option ℕ → Bool
    is_none none = true
    is_none (some i) = false

-- The answer null, or the error of the operation.
done_or_refused : Result ManagerError (Unit {0}) × Manager → Result ControlError Bytes × Manager
done_or_refused (ok _, m) = (ok (codes "null"), m)
done_or_refused (err e, m) = (err (refused e), m)

encoded : Option Bytes → Result ControlError Bytes
encoded none = err marshal_error
encoded (some b) = ok b

-- What follows when the parameters can be decoded.
with_params :
    {A : Type 0}
    → Option A
    → (A → Manager → Result ControlError Bytes × Manager)
    → Manager
    → Result ControlError Bytes × Manager
with_params none f m = (err invalid_params, m)
with_params (some a) f m = f a m

answer_status : Json → Result ManagerError TunnelStatus → Result ControlError Bytes
unfolding encoded
answer_status j (err e) = err (refused e)
answer_status j (ok st) = encoded (j.of_status st)

answer_logs : Json → Result ManagerError (List Bytes) → Result ControlError Bytes
unfolding encoded
answer_logs j (err e) = err (refused e)
answer_logs j (ok ls) = encoded (j.of_lines ls)

handle_method :
    Yaml → Json → LogBuffer → Method → Bytes → Manager → Result ControlError Bytes × Manager
unfolding done_or_refused encoded with_params answer_status answer_logs
handle_method y j lb list_tunnels params m = (encoded (j.of_list (list m)), m)
handle_method y j lb stop_all params m = (ok (codes "null"), stop m)
handle_method y j lb stop_in_group params m =
    with_params (j.group_params params) (λ g m. (ok (codes "null"), stop_group g m)) m
handle_method y j lb start_in_group params m =
    with_params (j.group_params params) (λ g m. (ok (codes "null"), start_group g m)) m
handle_method y j lb add_tunnel params m =
    with_params (j.tunnel_params params) (λ tc m. done_or_refused (add y tc m)) m
handle_method y j lb remove_tunnel params m =
    with_params (j.name_params params) (λ n m. done_or_refused (remove y n m)) m
handle_method y j lb enable_tunnel params m =
    with_params (j.name_params params) (λ n m. done_or_refused (enable y n m)) m
handle_method y j lb disable_tunnel params m =
    with_params (j.name_params params) (λ n m. done_or_refused (disable y n m)) m
handle_method y j lb restart_tunnel params m =
    with_params (j.name_params params) (λ n m. done_or_refused (restart n m)) m
handle_method y j lb save_config_file params m = done_or_refused (save y m)
handle_method y j lb tunnel_state params m =
    with_params (j.name_params params) (λ n m. (answer_status j (status n m), m)) m
handle_method y j lb tunnel_logs params m =
    with_params (j.logs_params params) (λ p m. (answer_logs j (logs lb p.0 p.1 m), m)) m
handle_method y j lb reload_config params m = done_or_refused (reload y m)

unfoldable pub handle_control : Yaml → Json → LogBuffer → Request → Manager → Response × Manager
unfolding handle_method
handle_control y j lb req m =
    let r : Result ControlError Bytes × Manager = elim (method_of req.method) [
      | none ↦ (err (unknown_method req.method), m)
      | some k ↦ handle_method y j lb k req.params m
    ] in
    (record { answer = r.0; id = req.id }, r.1)
