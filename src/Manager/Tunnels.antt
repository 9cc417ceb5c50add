-- ===== src/Manager/Tunnels.antt =====
-- manager/manager.go: the manager and its operations. Each holds m.mu throughout and is one step;
-- waiting for a stopped tunnel changes no state of the manager.
pub mod Maps
pub mod Invariant
use tunnelmanager.Prelude.{
  ◌∷◌, Action, Bool, Bytes, List, Option, [], codes, err, exceeds, if◌then◌else◌, length, ltb, none,
  ok, some, suc, text_eq, ℕ,
}
use tunnelmanager.Manager.Config.{TunnelConfig, Config, Disk, ConfigError}

-- What startOne runs in the tunnel's goroutine.
pub data Runner : Type 0 where
  run_local run_chain run_dynamic : Runner
  run_remote_client run_remote_client_multi run_remote_server : Runner

pub record TunnelState : Type 0 where
  pub status : Bytes
  pub since : ℕ
  pub reconnect_count : ℕ
  pub last_err : Bytes

-- TunnelState.Set at time `now`.
unfoldable pub set_state : Bytes → Bytes → ℕ → TunnelState → TunnelState
set_state status e now ts = record ts {
  status = status;
  since = if text_eq ts.status status then ts.since else now;
  last_err = e;
}

unfoldable pub set_reconnect_count : ℕ → TunnelState → TunnelState
set_reconnect_count n ts = record ts { reconnect_count = n }

unfoldable pub fresh_state : TunnelState
fresh_state = record { status = []; since = 0; reconnect_count = 0; last_err = [] }

pub record ManagedTunnel : Type 0 where
  pub cfg : TunnelConfig
  pub runner : Runner
  pub state : TunnelState

pub record Manager : Type 0 where
  pub cfg : Config
  pub cfg_path : Bytes
  pub tunnels : List (Bytes × ManagedTunnel)
  pub disk : Disk

pub data ManagerError : Type 0 where
  not_found already_exists : Bytes → ManagerError
  unknown_mode : Bytes → ManagerError
  save_failed reload_failed : ConfigError → ManagerError

unfoldable pub new_manager : Config → Bytes → Disk → Manager
new_manager cfg path d = record { cfg = cfg; cfg_path = path; tunnels = []; disk = d }

-- Go's map from names to running tunnels.
unfoldable pub lookup : Bytes → List (Bytes × ManagedTunnel) → Option ManagedTunnel
lookup k [] = none
lookup k ((j, t) ∷ m) = if text_eq j k then some t else lookup k m

pub without : Bytes → List (Bytes × ManagedTunnel) → List (Bytes × ManagedTunnel)
without k [] = []
without k ((j, t) ∷ m) = let rest = without k m in if text_eq j k then rest else (j, t) ∷ rest

-- findConfig.
unfoldable pub find_config : Bytes → List TunnelConfig → Option ℕ
find_config name [] = none
find_config name (tc ∷ tcs) =
    let rest = find_config name tcs in
    if text_eq tc.name name then some 0 else elim rest [ none ↦ none | some i ↦ some (suc i) ]

-- The switch of startOne on the mode.
unfoldable pub choose_runner : TunnelConfig → Option Runner
choose_runner tc =
    if text_eq tc.mode (codes "local")
    then some (if ltb 0 (length tc.hops) then run_chain else run_local)
    else if text_eq tc.mode (codes "dynamic")
    then some run_dynamic
    else if text_eq tc.mode (codes "remote")
    then some (
        if text_eq tc.server []
        then run_remote_server
        else if exceeds tc.connections 1
        then run_remote_client_multi
        else run_remote_client)
    else none

unfoldable pub start_one : TunnelConfig → Action Manager ManagerError (Unit {0})
unfolding lookup choose_runner fresh_state
start_one tc m = elim (lookup tc.name m.tunnels) [
  | some _ ↦ (ok tt, m)
  | none ↦ elim (choose_runner tc) [
    | none ↦ (err (unknown_mode tc.mode), m)
    | some r ↦ (
      ok tt,
      record m {
        tunnels = (tc.name, record { cfg = tc; runner = r; state = fresh_state }) ∷ m.tunnels;
      },
    )
  ]
]

-- The loops over the configuration that log a failure to start and go on.
unfoldable pub start_where : (TunnelConfig → Bool) → List TunnelConfig → Manager → Manager
unfolding start_one
start_where wanted [] m = m
start_where wanted (tc ∷ tcs) m =
    start_where wanted tcs (if wanted tc then (start_one tc m).1 else m)

unfoldable pub start : Manager → Manager
unfolding start_where
start m = start_where (λ tc. tc.autostart) m.cfg.tunnels m

unfoldable pub stop : Manager → Manager
stop m = record m { tunnels = [] }

unfoldable pub stop_tunnel : Bytes → Manager → Manager
unfolding without
stop_tunnel name m = record m { tunnels = without name m.tunnels }

-- `if mt, running := m.tunnels[name]; running { stopTunnelLocked(name, mt) }`
unfoldable pub stop_running : Bytes → Manager → Manager
unfolding lookup stop_tunnel
stop_running name m = elim (lookup name m.tunnels) [ none ↦ m | some _ ↦ stop_tunnel name m ]

pub without_group : Bytes → List (Bytes × ManagedTunnel) → List (Bytes × ManagedTunnel)
without_group g [] = []
without_group g ((j, t) ∷ m) =
    let rest = without_group g m in if text_eq t.cfg.group g then rest else (j, t) ∷ rest

unfoldable pub stop_group : Bytes → Manager → Manager
unfolding without_group
stop_group g m = record m { tunnels = without_group g m.tunnels }

unfoldable pub start_group : Bytes → Manager → Manager
unfolding start_where
start_group g m = start_where (λ tc. text_eq tc.group g) m.cfg.tunnels m
