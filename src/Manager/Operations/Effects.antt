-- ===== src/Manager/Operations/Effects.antt =====
-- What the operations of manager/manager.go do, success and failure.
use tunnelmanager.Prelude.{
  ◌++◌, ◌∙◌, ◌∷◌, ◌≡◌, Action, Bool, Bytes, Result, [], ap, arith, err, false, if◌then◌else◌, none,
  ok, pure, refl, resume, some, subst, sym, text_eq, text_eq_refl, true, ℕ,
}
use tunnelmanager.Manager.Tunnels.Maps.{
  Distinct, find_config_last, start_one_idle, start_one-cfg, start_one-disk, NotNamed, cut_out,
  stop_running-cfg, stop_running-disk, cut_out_found, lookup-stop_running,
}
use tunnelmanager.Manager.Tunnels.{
  lookup, Runner, fresh_state, Manager, already_exists, save_failed, find_config, choose_runner,
  ManagerError, start_one, stop_running,
}
use tunnelmanager.Manager.Operations.{add, save_cfg, set_tunnels, remove, reload_with, reload}
use tunnelmanager.Manager.Config.{
  TunnelConfig, Yaml, content, write_error, save_path, save_config, Config, ConfigError,
  load_config, Disk,
}

-- A name that is configured is refused, and nothing changes.
add_duplicate :
    (y : Yaml) (tc : TunnelConfig) (m : Manager) (i : ℕ)
    → find_config tc.name m.cfg.tunnels ≡ some i
    → add y tc m ≡ (err (already_exists tc.name), m)
unfolding add
add_duplicate y tc m i e = rw (e, add)

-- The manager after Add has written the file.
abbrev saved : Yaml → TunnelConfig → Manager → Manager
saved y tc m = (save_cfg y (set_tunnels (m.cfg.tunnels ++ (tc ∷ [])) m)).1

-- What Add does after the configuration has been extended and saved.
abbrev start_if : TunnelConfig → Action Manager ManagerError (Unit {0})
start_if tc = if tc.autostart then start_one tc else pure tt

add_new :
    (y : Yaml) (tc : TunnelConfig) (m : Manager)
    → find_config tc.name m.cfg.tunnels ≡ none
    → add y tc m
      ≡ resume
          (save_cfg y (set_tunnels (m.cfg.tunnels ++ (tc ∷ [])) m)).0
          (λ _. start_if tc)
          (saved y tc m)
unfolding add
add_new y tc m e = rw (e, add)

save_cfg_written :
    (y : Yaml) (m : Manager) (b : Bytes)
    → y.marshal m.cfg ≡ some b
    → m.disk.writable ≡ true
    → ((save_cfg y m).0 ≡ ok tt)
      × ((save_cfg y m).1.disk.files (save_path m.cfg_path m.disk) ≡ content b)
unfolding save_cfg save_config
save_cfg_written y m b h w = ground (arith, text_eq_refl (save_path m.cfg_path m.disk))

save_cfg_refused :
    (y : Yaml) (m : Manager)
    → m.disk.writable ≡ false
    → (save_cfg y m).0 ≡ err (save_failed write_error)
unfolding save_cfg save_config
save_cfg_refused y m w = ground arith

start_if_keeps :
    (tc : TunnelConfig) (m : Manager)
    → ((start_if tc m).1.cfg ≡ m.cfg) × ((start_if tc m).1.disk ≡ m.disk)
start_if_keeps tc m = ground (arith, start_one-cfg tc m, start_one-disk tc m)

-- Add of a new name, when the new configuration can be encoded and the file written, makes the
-- tunnel the last one of the configuration in memory and writes that configuration to the file.
pub add_saved :
    (y : Yaml) (tc : TunnelConfig) (m : Manager) (b : Bytes)
    → find_config tc.name m.cfg.tunnels ≡ none
    → y.marshal (record { tunnels = m.cfg.tunnels ++ (tc ∷ []); global = m.cfg.global }) ≡ some b
    → m.disk.writable ≡ true
    → let r = add y tc m in
      (r.1.cfg.tunnels ≡ m.cfg.tunnels ++ (tc ∷ []))
      × (r.1.disk.files (save_path m.cfg_path m.disk) ≡ content b)
unfolding save_cfg set_tunnels
add_saved y tc m b new marshalled w =
    let m1 = set_tunnels (m.cfg.tunnels ++ (tc ∷ [])) m in
    let (fine, there) = save_cfg_written y m1 b marshalled w in
    let ran : add y tc m ≡ start_if tc (saved y tc m) = add_new y tc m new ∙ rw fine in
    let (same_cfg, same_disk) = start_if_keeps tc (saved y tc m) in
    (rw (ran, same_cfg), rw (ran, same_disk) there)

-- Add of a new name that starts automatically, in a known mode, and does not run already, when the
-- new configuration can be encoded and the file written, succeeds and runs the tunnel in a fresh
-- state with the runner of its mode, and no other running tunnel changes.
pub add_started :
    (y : Yaml) (tc : TunnelConfig) (m : Manager) (b : Bytes) (k : Runner) (n : Bytes)
    → find_config tc.name m.cfg.tunnels ≡ none
    → y.marshal (record { tunnels = m.cfg.tunnels ++ (tc ∷ []); global = m.cfg.global }) ≡ some b
    → m.disk.writable ≡ true
    → tc.autostart ≡ true
    → choose_runner tc ≡ some k
    → lookup tc.name m.tunnels ≡ none
    → let r = add y tc m in
      (r.0 ≡ ok tt)
      × (lookup n r.1.tunnels ≡ (
          if text_eq tc.name n
          then some (record { cfg = tc; runner = k; state = fresh_state })
          else lookup n m.tunnels))
unfolding save_cfg set_tunnels
add_started y tc m b k n new marshalled w auto mode idle =
    let m1 = set_tunnels (m.cfg.tunnels ++ (tc ∷ [])) m in
    let fine = (save_cfg_written y m1 b marshalled w).0 in
    let (started, shows) = start_one_idle tc k (saved y tc m) idle mode in
    let starts : add y tc m ≡ start_one tc (saved y tc m) =
      (add_new y tc m new ∙ rw fine)
      ∙ ap (λ (b : Bool). (if b then start_one tc else pure tt) (saved y tc m)) auto in
    rw starts (started, shows n)

-- When the file cannot be written, Add of a new name fails but leaves the tunnel in the
-- configuration in memory, and the same Add again is refused as a duplicate.
pub add_unsaved :
    (y : Yaml) (tc : TunnelConfig) (m : Manager)
    → find_config tc.name m.cfg.tunnels ≡ none
    → m.disk.writable ≡ false
    → let r = add y tc m in
      (r.0 ≡ err (save_failed write_error))
      × (r.1.cfg.tunnels ≡ m.cfg.tunnels ++ (tc ∷ []))
      × ((add y tc r.1).0 ≡ err (already_exists tc.name))
unfolding save_cfg set_tunnels
add_unsaved y tc m new w =
    let failed = save_cfg_refused y (set_tunnels (m.cfg.tunnels ++ (tc ∷ [])) m) w in
    let ended : add y tc m ≡ (err (save_failed write_error), saved y tc m) =
      add_new y tc m new ∙ rw failed in
    let kept : (add y tc m).1.cfg.tunnels ≡ m.cfg.tunnels ++ (tc ∷ []) = rw ended in
    let (i, last) = find_config_last m.cfg.tunnels tc in
    (
      rw ended,
      kept,
      ap (λ (r : Result ManagerError (Unit {0}) × Manager). r.0)
          (add_duplicate y tc (add y tc m).1 i (ap (find_config tc.name) kept ∙ last)),
    )

remove_found :
    (y : Yaml) (n : Bytes) (m : Manager) (i : ℕ)
    → find_config n (stop_running n m).cfg.tunnels ≡ some i
    → remove y n m
      ≡ save_cfg y (set_tunnels (cut_out i (stop_running n m).cfg.tunnels) (stop_running n m))
unfolding remove
remove_found y n m i e = rw (e, remove)

-- Remove of a configured name, when all names differ, the remaining configuration can be encoded
-- and the file written, succeeds; nothing of that name is configured or runs any more, and what
-- runs under other names does not change.
pub remove_gone :
    (y : Yaml) (n j b : Bytes) (m : Manager) (i : ℕ)
    → Distinct m.cfg.tunnels
    → find_config n m.cfg.tunnels ≡ some i
    → y.marshal (record { tunnels = cut_out i m.cfg.tunnels; global = m.cfg.global }) ≡ some b
    → m.disk.writable ≡ true
    → let r = remove y n m in
      (r.0 ≡ ok tt)
      × (r.1.cfg.tunnels ≡ cut_out i m.cfg.tunnels)
      × NotNamed n r.1.cfg.tunnels
      × (lookup j r.1.tunnels ≡ (if text_eq n j then none else lookup j m.tunnels))
unfolding save_cfg set_tunnels
remove_gone y n j b m i d e marshalled w =
    let m1 = stop_running n m in
    let same = ap (λ (c : Config). c.tunnels) (stop_running-cfg n m) in
    let m2 = set_tunnels (cut_out i m1.cfg.tunnels) m1 in
    let cfg2 : m2.cfg ≡ record { tunnels = cut_out i m.cfg.tunnels; global = m.cfg.global } =
      ap (λ (c : Config). record { tunnels = cut_out i c.tunnels; global = c.global })
        (stop_running-cfg n m) in
    let fine =
      save_cfg_written y m2 b (ap y.marshal cfg2 ∙ marshalled)
        (ap (λ (x : Disk). x.writable) (stop_running-disk n m) ∙ w) in
    let ran = remove_found y n m i (ap (find_config n) same ∙ e) in
    let left : (remove y n m).1.cfg.tunnels ≡ cut_out i m.cfg.tunnels =
      rw ran (ap (cut_out i) same) in
    (
      rw ran fine.0,
      left,
      subst (NotNamed n) (sym left) (cut_out_found n i m.cfg.tunnels e d),
      rw ran (lookup-stop_running n j m),
    )

-- A Reload that fails changes nothing: the configuration stays and every tunnel keeps running.
pub reload_error :
    (y : Yaml) (m : Manager) (e : ManagerError) → (reload y m).0 ≡ err e → (reload y m).1 ≡ m
unfolding reload reload_with
reload_error y m e h = go (load_config y m.cfg_path m.disk) h
  where
    go : (r : Result ConfigError Config) → (reload_with r m).0 ≡ err e → (reload_with r m).1 ≡ m
    go (err x) h = refl
    go (ok cfg) h = cc
