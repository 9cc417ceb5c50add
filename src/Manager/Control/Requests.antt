-- ===== src/Manager/Control/Requests.antt =====
-- Requests on the control socket (manager/manager.go) against the manager's operations.
use tunnelmanager.Prelude.{
  ◌∙◌, ◌∷◌, ◌≡◌, Bytes, List, Option, Option-cases, Result, [], codes, err, if◌then◌else◌, inl, inr,
  none, ok, refl, some, subst, sym, text_eq,
}
use tunnelmanager.Manager.Operations.{save, add, remove, reload, enable, disable, restart}
use tunnelmanager.Manager.Tunnels.{Manager, ManagerError}
use tunnelmanager.Manager.Logging.{LogBuffer}
use tunnelmanager.Manager.Config.{Yaml}
use tunnelmanager.Manager.Control.{
  Request, ControlError, Json, Method, list_tunnels, stop_all, stop_in_group, start_in_group,
  add_tunnel, remove_tunnel, enable_tunnel, disable_tunnel, restart_tunnel, save_config_file,
  tunnel_state, tunnel_logs, reload_config, method_of, done_or_refused, with_params, handle_method,
  handle_control,
}
use tunnelmanager.Manager.Operations.Steps.{
  Op, stops, saves, reloads, starts_group, stops_group, adds, removes, enables, disables, restarts,
  step, Sound, LoadsDistinct, step-Sound,
}
use mathlib.Core.Option as CoreOption

-- The operation that a request makes, if its parameters can be decoded and it makes one at all.
abbrev pub method_op : Json → Bytes → Method → Option Op
method_op j params list_tunnels = none
method_op j params stop_all = some stops
method_op j params stop_in_group = CoreOption.map stops_group (j.group_params params)
method_op j params start_in_group = CoreOption.map starts_group (j.group_params params)
method_op j params add_tunnel = CoreOption.map adds (j.tunnel_params params)
method_op j params remove_tunnel = CoreOption.map removes (j.name_params params)
method_op j params enable_tunnel = CoreOption.map enables (j.name_params params)
method_op j params disable_tunnel = CoreOption.map disables (j.name_params params)
method_op j params restart_tunnel = CoreOption.map restarts (j.name_params params)
method_op j params save_config_file = some saves
method_op j params tunnel_state = none
method_op j params tunnel_logs = none
method_op j params reload_config = some reloads

-- The names of the methods.
abbrev pub methods : List (Bytes × Method)
methods =
    (codes "list", list_tunnels)
    ∷ (codes "stop", stop_all)
    ∷ (codes "stop-group", stop_in_group)
    ∷ (codes "start-group", start_in_group)
    ∷ (codes "add", add_tunnel)
    ∷ (codes "remove", remove_tunnel)
    ∷ (codes "enable", enable_tunnel)
    ∷ (codes "disable", disable_tunnel)
    ∷ (codes "restart", restart_tunnel)
    ∷ (codes "save", save_config_file)
    ∷ (codes "status", tunnel_state)
    ∷ (codes "logs", tunnel_logs)
    ∷ (codes "reload", reload_config)
    ∷ []

abbrev pub named : Bytes → List (Bytes × Method) → Option Method
named s [] = none
named s ((n, k) ∷ ms) = if text_eq s n then some k else named s ms

method_of-named : (s : Bytes) → method_of s ≡ named s methods
unfolding method_of
method_of-named s = refl

abbrev pub request_op : Json → Request → Option Op
request_op j req = elim (named req.method methods) [
  | none ↦ none
  | some k ↦ method_op j req.params k
]

abbrev pub maybe_step : Yaml → Option Op → Manager → Manager
maybe_step y none m = m
maybe_step y (some o) m = step y o m

done_or_refused-state : (r : Result ManagerError (Unit {0}) × Manager) → (done_or_refused r).1 ≡ r.1
unfolding done_or_refused
done_or_refused-state (ok u, m) = refl
done_or_refused-state (err e, m) = refl

with_params-state :
    {A : Type 0} (y : Yaml) (p : Option A) (o : A → Op)
    (f : A → Manager → Result ControlError Bytes × Manager) (m : Manager)
    → ((a : A) → (f a m).1 ≡ step y (o a) m)
    → (with_params p f m).1 ≡ maybe_step y (CoreOption.map o p) m
unfolding with_params
with_params-state y none o f m h = refl
with_params-state y (some a) o f m h = h a

with_params_same :
    {A : Type 0} (p : Option A) (f : A → Manager → Result ControlError Bytes × Manager)
    (m : Manager)
    → ((a : A) → (f a m).1 ≡ m)
    → (with_params p f m).1 ≡ m
unfolding with_params
with_params_same none f m h = refl
with_params_same (some a) f m h = h a

handle_method-state :
    (y : Yaml) (j : Json) (b : LogBuffer) (k : Method) (params : Bytes) (m : Manager)
    → (handle_method y j b k params m).1 ≡ maybe_step y (method_op j params k) m
unfolding handle_method step
handle_method-state y j b list_tunnels params m = refl
handle_method-state y j b stop_all params m = refl
handle_method-state y j b stop_in_group params m =
    with_params-state y (j.group_params params) stops_group _ m (λ g. refl)
handle_method-state y j b start_in_group params m =
    with_params-state y (j.group_params params) starts_group _ m (λ g. refl)
handle_method-state y j b add_tunnel params m =
    with_params-state y (j.tunnel_params params) adds _ m (λ x. done_or_refused-state (add y x m))
handle_method-state y j b remove_tunnel params m =
    with_params-state y (j.name_params params) removes _ m
      (λ n. done_or_refused-state (remove y n m))
handle_method-state y j b enable_tunnel params m =
    with_params-state y (j.name_params params) enables _ m
      (λ n. done_or_refused-state (enable y n m))
handle_method-state y j b disable_tunnel params m =
    with_params-state y (j.name_params params) disables _ m
      (λ n. done_or_refused-state (disable y n m))
handle_method-state y j b restart_tunnel params m =
    with_params-state y (j.name_params params) restarts _ m
      (λ n. done_or_refused-state (restart n m))
handle_method-state y j b save_config_file params m = done_or_refused-state (save y m)
handle_method-state y j b tunnel_state params m =
    with_params_same (j.name_params params) _ m (λ n. refl)
handle_method-state y j b tunnel_logs params m =
    with_params_same (j.logs_params params) _ m (λ p. refl)
handle_method-state y j b reload_config params m = done_or_refused-state (reload y m)

-- Every control request has exactly the effect of the one manager operation that its method and
-- parameters name, or none when it names no operation or its parameters cannot be decoded, and the
-- response carries the id of the request.
pub handle_control-step :
    (y : Yaml) (j : Json) (b : LogBuffer) (req : Request) (m : Manager)
    → ((handle_control y j b req m).1 ≡ maybe_step y (request_op j req) m)
      × ((handle_control y j b req m).0.id ≡ req.id)
unfolding handle_control
handle_control-step y j b req m = elim (Option-cases (method_of req.method)) [
  | inl e ↦
      let e' : named req.method methods ≡ none = sym (method_of-named req.method) ∙ e in
      rw (e, e', handle_control, request_op) (refl, refl)
  | inr (k, e) ↦
      let e' : named req.method methods ≡ some k = sym (method_of-named req.method) ∙ e in
      rw (e, e', handle_control, request_op) (handle_method-state y j b k req.params m, refl)
]

-- Every control request keeps the running tunnels in order and the names different, unless Q holds,
-- when the configuration file, if it loads, has different names.
pub handle_control-Sound :
    {Q : Type 0} (y : Yaml) (j : Json) (b : LogBuffer) (req : Request) (m : Manager)
    → LoadsDistinct Q y m
    → Sound Q m
    → Sound Q (handle_control y j b req m).1
handle_control-Sound {Q} y j b req m l v =
    subst (Sound Q) (sym (handle_control-step y j b req m).0) (go (request_op j req))
  where
    go : (o : Option Op) → Sound Q (maybe_step y o m)
    go none = v
    go (some o) = step-Sound y o m (λ _. l) v
