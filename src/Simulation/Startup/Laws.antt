-- ===== src/Simulation/Startup/Laws.antt =====
-- How much the check before the start can cost.
use microsvc.Prelude.{ℕ, zero, suc, ◌+◌, ◌*◌, ◌≤◌, arith, inl, inr}
use microsvc.Prelude.Lists.{length}
use microsvc.Simulation.Numbers.{Numbers}
use microsvc.Simulation.Actions.{World, wait, Outcome-cases}
use microsvc.Simulation.Client
use microsvc.Simulation.Client.{ApiClient}
use microsvc.Simulation.Client.Endpoints.{health_check-sent}
use microsvc.Simulation.Startup.{health_checks, perform_initial_health_check}

module _ {F : Type 0} (N : Numbers F) (c : ApiClient) where
  health_checks-sent :
      (left : ℕ) (w : World F)
      → length (health_checks N c left w).1.sent ≤ length w.sent + (left + 1) * (c.max_retries + 1)
  unfolding health_checks
  health_checks-sent zero w = elim (Outcome-cases (Client.health_check N c w).0) [
    | inl (_, e) ↦ rw (length, e) (omega (arith, health_check-sent N c w))
    | inr (_, e) ↦ rw (length, e) (omega (arith, health_check-sent N c w))
  ]
  health_checks-sent (suc left) w = elim (Outcome-cases (Client.health_check N c w).0) [
    | inl (_, e) ↦ rw (length, e) (omega (arith, health_check-sent N c w))
    | inr (_, e) ↦
        let w' = wait (N.of_nat 5000) (Client.health_check N c w).1 in
        rw (length, e) (omega (arith, health_check-sent N c w, health_checks-sent left w'))
  ]

  -- The check before the start always ends, and sends at most five times as many requests as the
  -- client makes attempts at one.
  pub perform_initial_health_check-sent :
      (w : World F)
      → length (perform_initial_health_check N c w).1.sent ≤ length w.sent + 5 * (c.max_retries + 1)
  unfolding perform_initial_health_check
  perform_initial_health_check-sent w = health_checks-sent 4 w
