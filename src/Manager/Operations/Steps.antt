-- ===== src/Manager/Operations/Steps.antt =====
-- Every operation of manager/manager.go keeps the running tunnels and the names in order.
use tunnelmanager.Prelude.{
  ◌++◌, ◌∷◌, ◌≡◌, ◌⊎◌, Action, Bool, Bytes, List, Option-cases, Result, [], err, false, get_elem?,
  if_both, if◌then◌else◌, inl, inr, ok, pure, refl, resume, subst, suc, sym, text_eq, true, zero, ℕ,
}
use tunnelmanager.Manager.Tunnels.{
  Manager, ManagerError, find_config, stop_group, start_group, start, stop, lookup, start_one,
  stop_running,
}
use tunnelmanager.Manager.Operations.{
  save_cfg, save, set_tunnels, add, remove, reload, start_at, enable, disable, restart, found,
  modify, set_autostart, reload_with,
}
use tunnelmanager.Manager.Config.{TunnelConfig, Yaml, Config, ConfigError, load_config}
use tunnelmanager.Manager.Tunnels.Invariant.{
  start_one-Inv, Inv, stop-Inv, stop_group-Inv, stop_running-Inv, start_where_keeps,
}
use tunnelmanager.Manager.Tunnels.Maps.{
  Distinct, Distinct-append, NotNamed, cut_out, find_config-none, cut_out-Distinct, start_one-cfg,
  stop_running-cfg,
}

-- The operations that a control request, a signal or the start of the daemon makes.
pub data Op : Type 0 where
  starts stops saves reloads : Op
  starts_group stops_group : Bytes → Op
  adds : TunnelConfig → Op
  removes enables disables restarts : Bytes → Op

unfoldable pub step : Yaml → Op → Manager → Manager
step y starts m = start m
step y stops m = stop m
step y saves m = (save y m).1
step y reloads m = (reload y m).1
step y (starts_group g) m = start_group g m
step y (stops_group g) m = stop_group g m
step y (adds tc) m = (add y tc m).1
step y (removes n) m = (remove y n m).1
step y (enables n) m = (enable y n m).1
step y (disables n) m = (disable y n m).1
step y (restarts n) m = (restart n m).1

-- What holds before a step that may fail, and after what follows it, holds at the end.
resume_keeps :
    (P : Manager → Type 0) (r : Result ManagerError (Unit {0}))
    (k : Unit {0} → Action Manager ManagerError (Unit {0})) (m : Manager)
    → P m
    → P (k tt m).1
    → P (resume r k m).1
resume_keeps P (ok u) k m h k' = k'
resume_keeps P (err e) k m h k' = h

-- The running tunnels are in order, and all configured names differ, unless Q holds.
pub record Sound (Q : Type 0) (m : Manager) : Type 0 where
  pub running : Inv m
  pub names : Q ⊎ Distinct m.cfg.tunnels

unless : {Q A B : Type 0} → (A → B) → Q ⊎ A → Q ⊎ B
unless f (inl q) = inl q
unless f (inr a) = inr (f a)

save_cfg-Sound : {Q : Type 0} (y : Yaml) (m : Manager) → Sound Q m → Sound Q (save_cfg y m).1
unfolding save_cfg
save_cfg-Sound y m v = record {
  running = record { runs = v.running.runs; once = v.running.once };
  names = v.names;
}

set_tunnels-Sound :
    {Q : Type 0} (tcs : List TunnelConfig) (m : Manager)
    → Sound Q m
    → Q ⊎ Distinct tcs
    → Sound Q (set_tunnels tcs m)
unfolding set_tunnels
set_tunnels-Sound tcs m v d = record {
  running = record { runs = v.running.runs; once = v.running.once };
  names = d;
}

start_one-Sound :
    {Q : Type 0} (tc : TunnelConfig) (m : Manager) → Sound Q m → Sound Q (start_one tc m).1
start_one-Sound {Q} tc m v = record {
  running = start_one-Inv tc m v.running;
  names = subst (λ (c : Config). Q ⊎ Distinct c.tunnels) (sym (start_one-cfg tc m)) v.names;
}

stop_running-Sound : {Q : Type 0} (n : Bytes) (m : Manager) → Sound Q m → Sound Q (stop_running n m)
stop_running-Sound {Q} n m v = record {
  running = stop_running-Inv n m v.running;
  names = subst (λ (c : Config). Q ⊎ Distinct c.tunnels) (sym (stop_running-cfg n m)) v.names;
}

start_at-Sound :
    {Q : Type 0} (i : ℕ) (n : Bytes) (m : Manager) → Sound Q m → Sound Q (start_at i n m).1
unfolding start_at
start_at-Sound i n m v = elim (Option-cases (lookup n m.tunnels)) [
  | inr (t, e) ↦ rw (e, start_at) v
  | inl e ↦ elim (Option-cases (get_elem? m.cfg.tunnels i)) [
    | inl u ↦ rw (e, u, start_at) v
    | inr (tc, u) ↦ rw (e, u, start_at) (start_one-Sound tc m v)
  ]
]

add-Sound :
    {Q : Type 0} (y : Yaml) (tc : TunnelConfig) (m : Manager) → Sound Q m → Sound Q (add y tc m).1
unfolding add
add-Sound {Q} y tc m v = elim (Option-cases (find_config tc.name m.cfg.tunnels)) [
  | inr (i, e) ↦ rw (e, add) v
  | inl e ↦
      let m1 = set_tunnels (m.cfg.tunnels ++ (tc ∷ [])) m in
      let d =
        unless (λ n. Distinct-append m.cfg.tunnels tc n (find_config-none tc.name m.cfg.tunnels e))
          v.names in
      let v2 = save_cfg-Sound y m1 (set_tunnels-Sound (m.cfg.tunnels ++ (tc ∷ [])) m v d) in
      rw (e, add)
        (resume_keeps (Sound Q) (save_cfg y m1).0
          (λ _. if tc.autostart then start_one tc else pure tt) (save_cfg y m1).1 v2
          (if_both (λ (k : Action Manager ManagerError (Unit {0})). Sound Q (k (save_cfg y m1).1).1)
            tc.autostart (start_one-Sound tc (save_cfg y m1).1 v2) v2))
]

remove-Sound :
    {Q : Type 0} (y : Yaml) (n : Bytes) (m : Manager) → Sound Q m → Sound Q (remove y n m).1
unfolding remove
remove-Sound {Q} y n m v =
    let m1 = stop_running n m in
    let v1 = stop_running-Sound n m v in
    elim (Option-cases (find_config n m1.cfg.tunnels)) [
      | inl e ↦ rw (e, remove) v1
      | inr (i, e) ↦
          rw (e, remove)
            (save_cfg-Sound y (set_tunnels (cut_out i m1.cfg.tunnels) m1) (
              set_tunnels-Sound (cut_out i m1.cfg.tunnels) m1 v1
                (unless (cut_out-Distinct i m1.cfg.tunnels) v1.names)))
    ]

set_autostart-NotNamed :
    (n : Bytes) (i : ℕ) (b : Bool) (tcs : List TunnelConfig)
    → NotNamed n tcs
    → NotNamed n (set_autostart i b tcs)
unfolding set_autostart
set_autostart-NotNamed n i b [] h = tt
set_autostart-NotNamed n zero b (tc ∷ tcs) h = h
set_autostart-NotNamed n (suc i) b (tc ∷ tcs) h = (h.0, set_autostart-NotNamed n i b tcs h.1)

set_autostart-Distinct :
    (i : ℕ) (b : Bool) (tcs : List TunnelConfig) → Distinct tcs → Distinct (set_autostart i b tcs)
unfolding set_autostart
set_autostart-Distinct i b [] d = tt
set_autostart-Distinct zero b (tc ∷ tcs) d = d
set_autostart-Distinct (suc i) b (tc ∷ tcs) d =
    (set_autostart-NotNamed tc.name i b tcs d.0, set_autostart-Distinct i b tcs d.1)

-- The common part of Enable and Disable.
switched-Sound :
    {Q : Type 0} (y : Yaml) (i : ℕ) (b : Bool) (m : Manager)
    → Sound Q m
    → Sound Q (save_cfg y (set_tunnels (set_autostart i b m.cfg.tunnels) m)).1
switched-Sound y i b m v = save_cfg-Sound y _ (
    set_tunnels-Sound (set_autostart i b m.cfg.tunnels) m v
      (unless (set_autostart-Distinct i b m.cfg.tunnels) v.names))

enable-Sound :
    {Q : Type 0} (y : Yaml) (n : Bytes) (m : Manager) → Sound Q m → Sound Q (enable y n m).1
unfolding enable
enable-Sound {Q} y n m v = elim (Option-cases (find_config n m.cfg.tunnels)) [
  | inl e ↦ rw (e, enable) v
  | inr (i, e) ↦
      let saved = save_cfg y (set_tunnels (set_autostart i true m.cfg.tunnels) m) in
      let w = switched-Sound y i true m v in
      rw (e, enable)
        (resume_keeps (Sound Q) saved.0 (λ _. start_at i n) saved.1 w
          (start_at-Sound i n saved.1 w))
]

disable-Sound :
    {Q : Type 0} (y : Yaml) (n : Bytes) (m : Manager) → Sound Q m → Sound Q (disable y n m).1
unfolding disable
disable-Sound {Q} y n m v = elim (Option-cases (find_config n m.cfg.tunnels)) [
  | inl e ↦ rw (e, disable) v
  | inr (i, e) ↦
      let saved = save_cfg y (set_tunnels (set_autostart i false m.cfg.tunnels) m) in
      let w = switched-Sound y i false m v in
      rw (e, disable)
        (resume_keeps (Sound Q) saved.0 (λ _. modify (stop_running n)) saved.1 w
          (stop_running-Sound n saved.1 w))
]

restart-Sound : {Q : Type 0} (n : Bytes) (m : Manager) → Sound Q m → Sound Q (restart n m).1
unfolding restart
restart-Sound n m v = elim (Option-cases (found n m)) [
  | inl e ↦ rw (e, restart) v
  | inr ((i, tc), e) ↦
      rw (e, restart) (start_one-Sound tc (stop_running n m) (stop_running-Sound n m v))
]

-- A file that Reload accepts has different names, unless Q holds.
abbrev pub LoadsDistinct : Type 0 → Yaml → Manager → Type 0
LoadsDistinct Q y m =
    (cfg : Config) → load_config y m.cfg_path m.disk ≡ ok cfg → Q ⊎ Distinct cfg.tunnels

reload-Sound :
    {Q : Type 0} (y : Yaml) (m : Manager) → LoadsDistinct Q y m → Sound Q m → Sound Q (reload y m).1
unfolding reload start stop
reload-Sound {Q} y m l v = go (load_config y m.cfg_path m.disk) refl
  where
    go :
        (r : Result ConfigError Config)
        → load_config y m.cfg_path m.disk ≡ r
        → Sound Q (reload_with r m).1
    go (err e) q = v
    go (ok cfg) q =
        start_where_keeps (Sound Q) start_one-Sound (λ tc. tc.autostart) cfg.tunnels
          (record (stop m) { cfg = cfg })
          (record { running = record { runs = tt; once = tt }; names = l cfg q })

-- Every operation of the manager, also when it fails, keeps each running tunnel under its own name
-- once with the runner of its mode, and all configured names different, unless Q holds; Reload does
-- when the loaded file has different names.
pub step-Sound :
    {Q : Type 0} (y : Yaml) (o : Op) (m : Manager)
    → (o ≡ reloads → LoadsDistinct Q y m)
    → Sound Q m
    → Sound Q (step y o m)
unfolding step save start stop start_group stop_group
step-Sound {Q} y starts m l v =
    start_where_keeps (Sound Q) start_one-Sound (λ tc. tc.autostart) m.cfg.tunnels m v
step-Sound {Q} y stops m l v = record { running = stop-Inv m; names = v.names }
step-Sound {Q} y saves m l v = save_cfg-Sound y m v
step-Sound {Q} y reloads m l v = reload-Sound y m (l refl) v
step-Sound {Q} y (starts_group g) m l v =
    start_where_keeps (Sound Q) start_one-Sound (λ tc. text_eq tc.group g) m.cfg.tunnels m v
step-Sound {Q} y (stops_group g) m l v = record {
  running = stop_group-Inv g m v.running;
  names = v.names;
}
step-Sound {Q} y (adds tc) m l v = add-Sound y tc m v
step-Sound {Q} y (removes n) m l v = remove-Sound y n m v
step-Sound {Q} y (enables n) m l v = enable-Sound y n m v
step-Sound {Q} y (disables n) m l v = disable-Sound y n m v
step-Sound {Q} y (restarts n) m l v = restart-Sound n m v
