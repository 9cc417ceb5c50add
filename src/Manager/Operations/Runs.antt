-- ===== src/Manager/Operations/Runs.antt =====
-- The operations of manager/manager.go on a concrete manager.
use tunnelmanager.Prelude.{◌∷◌, ◌≡◌, [], err, false, refl, text_eq, true}
use tunnelmanager.Manager.Operations.{add}
use tunnelmanager.Manager.Tunnels.{save_failed, already_exists, find_config}
use tunnelmanager.Manager.Samples.{configured, yaml, disk, idle}
use tunnelmanager.Manager.Config.{TunnelConfig, write_error}
use tunnelmanager.Manager.Operations.Effects.{add_unsaved}

abbrev new_tunnel : TunnelConfig
new_tunnel = configured (98 ∷ []) true

add_unsaved_example :
    let r = add yaml new_tunnel (idle (disk false)) in
    (r.0 ≡ err (save_failed write_error))
    × (r.1.cfg.tunnels ≡ configured (97 ∷ []) true ∷ new_tunnel ∷ [])
    × ((add yaml new_tunnel r.1).0 ≡ err (already_exists (98 ∷ [])))
unfolding find_config text_eq
add_unsaved_example = add_unsaved yaml new_tunnel (idle (disk false)) refl refl
