-- ===== src/Simulation/Manager/Tests.antt =====
-- The theorems about the manager at the samples.
use microsvc.Prelude.{ℕ, true, false, some, [], ◌≡◌, refl, arith}
use microsvc.Simulation.Manager
use microsvc.Simulation.Manager.{Manager, new_manager, traffic_step}
use microsvc.Simulation.Manager.Laws.{traffic_step_bounds}
use microsvc.Simulation.Samples.{numbers, number_laws, settings, world}

abbrev started : Manager ℕ
started = Manager.start (new_manager numbers settings world)

abbrev running : Manager ℕ
running = record {
  world = world;
  is_running = true;
  active_sessions = [];
  burst_active = false;
  concurrency_level = 5000;
  metrics = record {
    total_sessions = 0;
    successful_sessions = 0;
    failed_sessions = 0;
    new_user_registrations = 0;
    existing_user_logins = 0;
    total_transactions = 0;
    start_time = some 0;
  };
}

traffic_step_bounds_example :
    (t : Manager ℕ) × (traffic_step numbers settings 1 running ≡ some t)
    × (numbers.at_most (numbers.of_nat 2) t.concurrency_level ≡ true)
    × (numbers.at_most t.concurrency_level (numbers.of_nat 14) ≡ true)
traffic_step_bounds_example =
    traffic_step_bounds number_laws settings 1 running (omega arith) (λ k. (0, omega arith, refl))
      refl
