-- ===== src/Relay/HealthCheck.antt =====
-- relay/healthcheck.go: HealthCheck, one tick of its loop at a time.
pub mod Window
mod Runs
use tunnelmanager.Prelude.{
  ◌+◌, ◌∷◌, Bool, List, Option, [], if◌then◌else◌, leb, negsuc, none, pos, some, true, ℕ, ℤ,
}

-- What a tick logs.
pub data HealthLog : Type 0 where
  down : ℕ → HealthLog
  recovered : HealthLog

-- `failed` says whether the dial of this tick failed. `failures` is a Go int.
-- `consecutive >= failures`.
abbrev pub reached : ℕ → ℤ → Bool
reached n (pos k) = leb k n
reached n (negsuc k) = true

unfoldable pub health_tick : ℤ → Bool → ℕ → Option HealthLog × ℕ
health_tick failures failed consecutive =
    if failed
    then (
      if reached (consecutive + 1) failures then some (down (consecutive + 1)) else none,
      consecutive + 1,
    )
    else (if reached consecutive failures then some recovered else none, 0)

-- The loop up to `stop`, over the outcomes of the ticks, from a given count.
unfoldable pub health_check_from : ℤ → ℕ → List Bool → List (Option HealthLog)
unfolding health_tick
health_check_from failures consecutive [] = []
health_check_from failures consecutive (failed ∷ ticks) =
    let (log, count) = health_tick failures failed consecutive in
    log ∷ health_check_from failures count ticks

unfoldable pub health_check : ℤ → List Bool → List (Option HealthLog)
health_check failures = health_check_from failures 0
