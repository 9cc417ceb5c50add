-- ===== src/Relay/HealthCheck/Window.antt =====
-- relay/healthcheck.go: what is logged depends on the latest outcomes only.
use tunnelmanager.Prelude.{
  ◌++◌, ◌+◌, ◌∷◌, ◌≡◌, Bool, List, Option, [], append-nil, append_assoc, arith, false, get_elem?,
  if◌then◌else◌, length, none, refl, reverse, reverse-cons, some, subst, suc, true, ℕ, ℤ,
}
use tunnelmanager.Relay.HealthCheck.{
  HealthLog, down, recovered, reached, health_tick, health_check_from, health_check,
}

-- How many of the latest outcomes failed, the latest first.
unfoldable pub failed_run : List Bool → ℕ
failed_run [] = 0
failed_run (failed ∷ past) = if failed then suc (failed_run past) else 0

-- What the last tick logs, by the outcomes before it, the latest first.
unfoldable pub expected_log : ℤ → Bool → List Bool → Option HealthLog
expected_log failures failed past =
    if failed
    then (if reached (failed_run (true ∷ past)) failures
        then some (down (failed_run (true ∷ past)))
        else none)
    else (if reached (failed_run past) failures then some recovered else none)

health_tick-history :
    (failures : ℤ) (failed : Bool) (past : List Bool)
    → health_tick failures failed (failed_run past)
      ≡ (expected_log failures failed past, failed_run (failed ∷ past))
unfolding health_tick expected_log failed_run
health_tick-history failures true past =
    let e : failed_run past + 1 ≡ suc (failed_run past) = omega arith in rw (e)
health_tick-history failures false past = refl

health_check_from-history :
    (failures : ℤ) (past xs ys : List Bool) (failed : Bool)
    → get_elem? (health_check_from failures (failed_run past) (xs ++ (failed ∷ ys))) (length xs)
      ≡ some (expected_log failures failed (reverse xs ++ past))
unfolding health_check_from
health_check_from-history failures past [] ys failed = rw (health_tick-history failures failed past)
health_check_from-history failures past (x ∷ xs) ys failed = rw (
  health_tick-history failures x past,
  reverse-cons x xs,
  append_assoc (reverse xs) (x ∷ []) past,
  health_check_from-history failures (x ∷ past) xs ys failed,
)

-- What the health check logs at a tick is what the run of failures that ends there tells: down,
-- with its length, when that has reached the threshold, and recovered at a success behind such a
-- run.
pub health_check-history :
    (failures : ℤ) (xs ys : List Bool) (failed : Bool)
    → get_elem? (health_check failures (xs ++ (failed ∷ ys))) (length xs)
      ≡ some (expected_log failures failed (reverse xs))
unfolding health_check failed_run
health_check-history failures xs ys failed =
    subst
      (λ past.
        get_elem? (health_check failures (xs ++ (failed ∷ ys))) (length xs)
        ≡ some (expected_log failures failed past))
      (append-nil (reverse xs)) (health_check_from-history failures [] xs ys failed)
