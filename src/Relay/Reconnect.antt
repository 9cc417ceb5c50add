-- ===== src/Relay/Reconnect.antt =====
-- relay/reconnect.go: the delay before the next attempt. Float64 is a parameter: what the code does
-- with it is a record of operations.
pub mod Bounds
mod Runs
use tunnelmanager.Prelude.{Bool, if◌then◌else◌, min, suc, zero, ℕ}

pub record Floats {ℓ} (F : Type ℓ) : Type ℓ where
  pub of_int : ℕ → F
  pub to_int : F → ℕ  -- time.Duration(d), which drops the fraction
  pub mul : F → F → F
  pub add : F → F → F
  pub sub : F → F → F
  pub gt : F → F → Bool

-- Durations are nanoseconds; one that is negative in the code has no counterpart.
pub record BackoffConfig {ℓ} (F : Type ℓ) : Type ℓ where
  pub base_delay : ℕ
  pub max_delay : ℕ
  pub jitter_ratio : F

-- DefaultBackoff; `fifth` is the constant 0.2.
abbrev pub default_backoff {ℓ} : {F : Type ℓ} → F → BackoffConfig F
default_backoff fifth = record {
  base_delay = 1_000_000_000;
  max_delay = 30_000_000_000;
  jitter_ratio = fifth;
}

module _ {ℓ} {F : Type ℓ} ⦃fl : Floats F⦄ where
  -- The loop that doubles.
  unfoldable pub doubled : ℕ → F → F
  doubled zero d = d
  doubled (suc n) d = doubled n (fl.mul d (fl.of_int 2))

  unfoldable pub capped : BackoffConfig F → ℕ → F
  unfolding doubled
  capped cfg attempt =
      let d = doubled (min attempt 30) (fl.of_int cfg.base_delay) in
      if fl.gt d (fl.of_int cfg.max_delay) then fl.of_int cfg.max_delay else d

  -- `random` is what rand.Float64 returns.
  unfoldable pub backoff_delay : F → BackoffConfig F → ℕ → ℕ
  unfolding capped
  backoff_delay random cfg attempt =
      let d = capped cfg attempt in
      let jitter = fl.mul d cfg.jitter_ratio in
      fl.to_int (fl.add (fl.sub d jitter) (fl.mul (fl.mul random (fl.of_int 2)) jitter))
