-- ===== src/Manager/Operations.antt =====
-- manager/manager.go: the operations that change or show the configuration.
pub mod Steps
pub mod Effects
mod Runs
use tunnelmanager.Prelude.{
  ◌++◌, ◌>>=◌, ◌>>◌, ◌∷◌, Action, Bool, Bytes, List, Option, Result, [], codes, drop, err, false,
  get_elem?, if◌then◌else◌, map, none, ok, pure, some, suc, take, text_eq, true, wrap_result, zero,
  ℕ,
}
use tunnelmanager.Manager.Tunnels.{
  lookup, start, Manager, ManagerError, not_found, already_exists, save_failed, reload_failed,
  find_config, start_one, stop, stop_running, TunnelState, fresh_state,
}
use tunnelmanager.Manager.Config.{TunnelConfig, Yaml, load_config, save_config, Config, ConfigError}

pub record TunnelStatus : Type 0 where
  pub name : Bytes
  pub mode : Bytes
  pub local : Bytes
  pub remote : Bytes
  pub status : Bytes
  pub group : Bytes
  pub error : Bytes
  pub since : ℕ
  pub reconnect_count : ℕ

shown : TunnelConfig → Bytes → TunnelState → TunnelStatus
shown tc status ts = record {
  name = tc.name;
  mode = tc.mode;
  local = tc.local;
  remote = tc.remote;
  status = status;
  group = tc.group;
  error = ts.last_err;
  since = ts.since;
  reconnect_count = ts.reconnect_count;
}

-- A running tunnel that has no status yet counts as running.
unfoldable pub tunnel_status : Manager → TunnelConfig → TunnelStatus
unfolding shown
tunnel_status m tc = elim (lookup tc.name m.tunnels) [
  | none ↦ shown tc (codes "stopped") fresh_state
  | some t ↦
      shown tc (if text_eq t.state.status [] then codes "running" else t.state.status) t.state
]

unfoldable pub list : Manager → List TunnelStatus
list m = map (tunnel_status m) m.cfg.tunnels

-- `i := m.findConfig(name)`, then `m.cfg.Tunnels[i]` or the not-found error.
pub found : Bytes → Manager → Option (ℕ × TunnelConfig)
found name m = elim (find_config name m.cfg.tunnels) [
  | none ↦ none
  | some i ↦ elim (get_elem? m.cfg.tunnels i) [ none ↦ none | some tc ↦ some (i, tc) ]
]

unfoldable pub status : Bytes → Manager → Result ManagerError TunnelStatus
unfolding found
status name m = elim (found name m) [
  | none ↦ err (not_found name)
  | some (i, tc) ↦ ok (tunnel_status m tc)
]

-- SaveConfig(m.cfg, m.cfgPath), its error wrapped or passed on.
pub save_cfg : Yaml → Action Manager ManagerError (Unit {0})
save_cfg y m =
    let (r, d) = save_config y m.cfg m.cfg_path m.disk in
    (wrap_result save_failed r, record m { disk = d })

unfoldable pub save : Yaml → Action Manager ManagerError (Unit {0})
unfolding save_cfg
save y = save_cfg y

pub set_tunnels : List TunnelConfig → Manager → Manager
set_tunnels tcs m = record m { cfg = record { tunnels = tcs; global = m.cfg.global } }

-- What is done to the state, with no result.
abbrev pub modify : (Manager → Manager) → Action Manager ManagerError (Unit {0})
modify f m = (ok tt, f m)

unfoldable pub add : Yaml → TunnelConfig → Action Manager ManagerError (Unit {0})
unfolding save_cfg set_tunnels
add y tc m = elim (find_config tc.name m.cfg.tunnels) [
  | some _ ↦ (err (already_exists tc.name), m)
  | none ↦
      (do
        modify (set_tunnels (m.cfg.tunnels ++ (tc ∷ [])))
        save_cfg y
        if tc.autostart then start_one tc else pure tt)
        m
]

-- The running tunnel is stopped first, also when the name is not configured.
unfoldable pub remove : Yaml → Bytes → Action Manager ManagerError (Unit {0})
unfolding save_cfg set_tunnels
remove y name m =
    let m' = stop_running name m in
    elim (find_config name m'.cfg.tunnels) [
      | none ↦ (err (not_found name), m')
      | some i ↦ save_cfg y (set_tunnels (take i m'.cfg.tunnels ++ drop (suc i) m'.cfg.tunnels) m')
    ]

reload_with : Result ConfigError Config → Action Manager ManagerError (Unit {0})
reload_with (err e) m = (err (reload_failed e), m)
reload_with (ok cfg) m = (ok tt, start (record (stop m) { cfg = cfg }))

-- The file is read before anything is stopped.
unfoldable pub reload : Yaml → Action Manager ManagerError (Unit {0})
unfolding reload_with
reload y m = reload_with (load_config y m.cfg_path m.disk) m

pub set_autostart : ℕ → Bool → List TunnelConfig → List TunnelConfig
set_autostart i b [] = []
set_autostart zero b (tc ∷ tcs) = record tc { autostart = b } ∷ tcs
set_autostart (suc i) b (tc ∷ tcs) = tc ∷ set_autostart i b tcs

-- startOne on `m.cfg.Tunnels[i]`, unless the name runs.
pub start_at : ℕ → Bytes → Action Manager ManagerError (Unit {0})
start_at i name m = elim (lookup name m.tunnels) [
  | some _ ↦ (ok tt, m)
  | none ↦ elim (get_elem? m.cfg.tunnels i) [ none ↦ (ok tt, m) | some tc ↦ start_one tc m ]
]

unfoldable pub enable : Yaml → Bytes → Action Manager ManagerError (Unit {0})
unfolding save_cfg set_tunnels set_autostart start_at
enable y name m = elim (find_config name m.cfg.tunnels) [
  | none ↦ (err (not_found name), m)
  | some i ↦
      (do modify (set_tunnels (set_autostart i true m.cfg.tunnels)); save_cfg y; start_at i name) m
]

unfoldable pub disable : Yaml → Bytes → Action Manager ManagerError (Unit {0})
unfolding save_cfg set_tunnels set_autostart
disable y name m = elim (find_config name m.cfg.tunnels) [
  | none ↦ (err (not_found name), m)
  | some i ↦
      (do
        modify (set_tunnels (set_autostart i false m.cfg.tunnels))
        save_cfg y
        modify (stop_running name))
        m
]

unfoldable pub restart : Bytes → Action Manager ManagerError (Unit {0})
unfolding found
restart name m = elim (found name m) [
  | none ↦ (err (not_found name), m)
  | some (i, tc) ↦ start_one tc (stop_running name m)
]
