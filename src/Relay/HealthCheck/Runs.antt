-- ===== src/Relay/HealthCheck/Runs.antt =====
-- relay/healthcheck.go: two failures in a row, and a recovery.
use tunnelmanager.Prelude.{◌∷◌, ◌≡◌, [], false, get_elem?, pos, some, true}
use tunnelmanager.Relay.HealthCheck.{down, health_check}
use tunnelmanager.Relay.HealthCheck.Window.{failed_run, expected_log, health_check-history}

health_check-history_example :
    get_elem? (health_check (pos 2) (false ∷ true ∷ true ∷ false ∷ [])) 2 ≡ some (some (down 2))
unfolding expected_log failed_run
health_check-history_example = health_check-history (pos 2) (false ∷ true ∷ []) (false ∷ []) true
