-- ===== src/Simulation/Settings/Laws.antt =====
-- What every environment can rely on.
use microsvc.Prelude.{ℕ, String, ◌<◌, false, ◌≡◌, arith}
use microsvc.Simulation.Numbers.{Numbers}
use microsvc.Simulation.Settings.{
  Env, whole, fraction, simulation_settings, burst_settings, settings,
}

module _ {F : Type 0} (N : Numbers F) (env : Env F) where
  whole_pos : (key : String) (d : ℕ) → 0 < d → 0 < whole N env key d
  unfolding whole
  whole_pos key d h = ground arith

  fraction_nonzero :
      (key : String) (x : F) → env.is_zero x ≡ false → env.is_zero (fraction N env key x) ≡ false
  unfolding fraction
  fraction_nonzero key x h = ground arith

  -- Whatever the environment says, a program has at least one user at a time, one retry and a time
  -- limit, and an error probability that is not zero where the default is not: a setting of 0 is
  -- read as the default, and turns nothing off.
  pub settings_pos :
      env.is_zero (N.decimal 5 2) ≡ false
      → let s = (settings N env).simulation in
        (0 < s.concurrent_users)
        × (0 < s.burst.base_concurrent_users)
        × (0 < s.burst.burst_concurrent_users)
        × (0 < s.max_retries)
        × (0 < s.retry_delay_ms)
        × (0 < (settings N env).timeout)
        × (0 < (settings N env).total_users)
        × (env.is_zero s.error_injection.probability ≡ false)
  unfolding settings simulation_settings burst_settings
  settings_pos h = (
    whole_pos "CONCURRENT_USERS" 10 (omega arith),
    whole_pos "BURST_BASE_USERS" 2 (omega arith),
    whole_pos "BURST_PEAK_USERS" 14 (omega arith),
    whole_pos "MAX_RETRIES" 3 (omega arith),
    whole_pos "RETRY_DELAY" 1000 (omega arith),
    whole_pos "REQUEST_TIMEOUT" 10000 (omega arith),
    whole_pos "TOTAL_USERS" 1000 (omega arith),
    fraction_nonzero "ERROR_INJECTION_PROBABILITY" (N.decimal 5 2) h,
  )
