-- ===== src/Simulation/Startup.antt =====
-- simulation-client/src/index.js: the class `SimulationClient`. The start of the tracing is left out.
pub mod Laws
use microsvc.Prelude.{
  ℕ, zero, suc, String, Bool, true, false, Option, none, some, ◌⧺◌, if◌then◌else◌,
}
use microsvc.Web.{Error}
use microsvc.Simulation.Numbers.{Numbers}
use microsvc.Simulation.Actions.{World, Outcome, returned, thrown, wait}
use microsvc.Simulation.Client
use microsvc.Simulation.Client.{ApiClient}
use microsvc.Simulation.Manager.{Manager}
use microsvc.Simulation.Manager

-- `Target application is not accessible after 5 attempts`
abbrev inaccessible : Error → Error
inaccessible e = record {
  message = "Target application is not accessible after 5 attempts: " ⧺ e.message;
  code = none;
  response = none;
  config = none;
}

module _ {F : Type 0} (N : Numbers F) (c : ApiClient) where
  -- `performInitialHealthCheck`, by what `retries < maxRetries` leaves after the present attempt.
  pub health_checks : ℕ → World F → Outcome (Unit {0}) × World F
  health_checks zero w =
      let (o, w') = Client.health_check N c w in
      elim o [ returned _ ↦ (returned tt, w') | thrown e ↦ (thrown (inaccessible e), w') ]
  health_checks (suc left) w =
      let (o, w') = Client.health_check N c w in
      let rest = health_checks left (wait (N.of_nat 5000) w') in
      elim o [ returned _ ↦ (returned tt, w') | thrown e ↦ rest ]

  pub perform_initial_health_check : World F → Outcome (Unit {0}) × World F
  unfolding health_checks
  perform_initial_health_check = health_checks 4

-- `exit` is the code that the process ended with.
pub record SimulationClient (F : Type 0) : Type 0 where
  pub manager : Manager F
  pub is_shutting_down : Bool
  pub exit : Option ℕ

module _ {F : Type 0} where
  pub start : Numbers F → ApiClient → SimulationClient F → SimulationClient F
  unfolding perform_initial_health_check
  start N c s =
      let (o, w) = perform_initial_health_check N c s.manager.world in
      let m = record s.manager { world = w } in
      elim o [
        | returned _ ↦ record s { manager = Manager.start m }
        | thrown e ↦ record s { manager = m; exit = some 1 }
      ]

  -- A signal that arrives; a second one ends the process at once.
  pub shutdown_begins : SimulationClient F → SimulationClient F
  shutdown_begins s =
      if s.is_shutting_down
      then record s { exit = some 1 }
      else record s { is_shutting_down = true; manager = Manager.stop s.manager }

  -- The rest, after the wait for the active sessions: `tracing` is how the library's shutdown ends.
  pub shutdown_ends : Outcome (Unit {0}) → SimulationClient F → SimulationClient F
  shutdown_ends tracing s = elim tracing [
    | returned _ ↦ record s { exit = some 0 }
    | thrown e ↦ record s { exit = some 1 }
  ]
