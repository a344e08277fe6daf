-- ===== src/Simulation/Manager.antt =====
-- simulation-client/src/workflows/SimulationManager.js: the class `SimulationManager`. Timers run
-- its methods one at a time; the log is left out.
pub mod Laws
pub mod Rounds
pub mod Steps
pub mod Waiting
mod Tests
use microsvc.Prelude.{
  ℕ, zero, suc, ◌+◌, ◌-◌, ◌*◌, ◌/◌, ltb, ◌&&◌, String, Bool, true, false, not, Option, none, some,
  List, [], ◌∷◌, ◌⧺◌, show, lookup, insert, str_eq, if◌then◌else◌,
}
use microsvc.Prelude.Lists.{length}
use microsvc.Simulation.Numbers.{Numbers}
use microsvc.Simulation.Settings.{Settings, Burst}
use microsvc.Simulation.Actions.{
  World, Action, Outcome, returned, thrown, pure, throw, catch, draw, now, minute, wait, ◌>>=◌,
  ◌>>◌,
}
use microsvc.Simulation.Client
use microsvc.Simulation.Users.{User, generate_simulation_user, generate_new_user}
use microsvc.Simulation.Workflow.Faults.{is_marked}
use microsvc.Simulation.Client.{ApiClient}

pub record Metrics : Type 0 where
  pub total_sessions : ℕ
  pub successful_sessions : ℕ
  pub failed_sessions : ℕ
  pub new_user_registrations : ℕ
  pub existing_user_logins : ℕ
  pub total_transactions : ℕ
  pub start_time : Option ℕ

-- `active_sessions` is a `Map`, so no key is in it twice.
pub record Manager (F : Type 0) : Type 0 where
  pub world : World F
  pub is_running : Bool
  pub active_sessions : List (String × User)
  pub burst_active : Bool
  pub concurrency_level : F
  pub metrics : Metrics

-- `activeSessions.delete(key)`
unfoldable pub delete {ℓ} : {V : Type ℓ} → String → List (String × V) → List (String × V)
delete key [] = []
delete key ((k, v) ∷ rest) =
    let others = delete key rest in if str_eq k key then others else (k, v) ∷ others

module _ {F : Type 0} where
  -- What `startUserSession` does before the session's own work begins.
  pub registered : String → User → Manager F → Manager F
  registered id user s = record s {
    active_sessions = insert id user s.active_sessions;
    metrics = record s.metrics {
      total_sessions = s.metrics.total_sessions + 1;
      existing_user_logins =
          if user.is_pre_existing
          then s.metrics.existing_user_logins + 1
          else s.metrics.existing_user_logins;
      new_user_registrations =
          if user.is_pre_existing
          then s.metrics.new_user_registrations
          else s.metrics.new_user_registrations + 1;
    };
  }

module _ {F : Type 0} (N : Numbers F) where
  -- `a === 0`
  abbrev pub is_zero : F → Bool
  is_zero a = N.at_most a (N.of_nat 0) && N.at_most (N.of_nat 0) a

  -- `while (a === 0) a = Math.random()`; `none` where the fuel runs out.
  pub nonzero_draw : ℕ → World F → Option (F × World F)
  nonzero_draw zero w = none
  nonzero_draw (suc fuel) w =
      let a = w.random w.drawn in
      let w' = record w { drawn = suc w.drawn } in
      let again = nonzero_draw fuel w' in if is_zero a then again else some (a, w')

  pub gaussian : ℕ → World F → Option (F × World F)
  unfolding nonzero_draw
  gaussian fuel w = elim (nonzero_draw fuel w) [
    | none ↦ none
    | some (a, w') ↦ elim (nonzero_draw fuel w') [
      | none ↦ none
      | some (b, w'') ↦ some (N.gauss a b, w'')
    ]
  ]

  abbrev pub session_id : ℕ → F → String
  session_id t x = "session_" ⧺ show t ⧺ "_" ⧺ show (N.floor (N.mul x (N.of_nat 10000)))

  pub generate_session_id : Action (World F) String
  generate_session_id = do t ← now; x ← draw; pure (session_id t x)

  pub start_user_session : User → Action (Manager F) (String × User)
  unfolding registered generate_session_id
  start_user_session user s =
      let (o, w) = generate_session_id s.world in
      elim o [
        | thrown e ↦ (thrown e, record s { world = w })
        | returned id ↦ (returned (id, user), registered id user (record s { world = w }))
      ]

module _ {F : Type 0} (N : Numbers F) (settings : Settings F) where
  pub new_manager : World F → Manager F
  new_manager w = record {
    world = w;
    is_running = false;
    active_sessions = [];
    burst_active = false;
    concurrency_level = N.of_nat settings.simulation.burst.mean_concurrent_users;
    metrics = record {
      total_sessions = 0;
      successful_sessions = 0;
      failed_sessions = 0;
      new_user_registrations = 0;
      existing_user_logins = 0;
      total_transactions = 0;
      start_time = none;
    };
  }

  -- The level after the walk, before it is bounded.
  abbrev spiked : F → World F → F × World F
  spiked level w =
      let u = settings.simulation.burst in
      let w' = record w { drawn = suc w.drawn } in
      if N.below (w.random w.drawn) u.spike_chance
      then (
        N.add level (N.mul (w'.random w'.drawn) (N.of_nat u.spike_magnitude)),
        record w' { drawn = suc w'.drawn },
      )
      else (level, w')

  abbrev pub clamped : F → F
  clamped level =
      let u = settings.simulation.burst in
      N.min (N.of_nat u.burst_concurrent_users) (N.max (N.of_nat u.base_concurrent_users) level)

  abbrev busy_from : F
  busy_from =
      let u = settings.simulation.burst in
      let mean = N.of_nat u.mean_concurrent_users in
      N.add mean (N.div (N.sub (N.of_nat u.burst_concurrent_users) mean) (N.of_nat 2))

  -- The time to the next step: `Math.max(1000, next)`.
  abbrev next_update : F → F
  next_update x =
      let u = settings.simulation.burst in
      N.max (N.of_nat 1000) (
        N.mul (N.of_nat u.update_ms) (
          N.add (N.of_nat 1)
            (N.mul (N.mul (N.sub x (N.decimal 5 1)) (N.of_nat 2)) u.update_jitter)))

  -- A step of the traffic model from its Gaussian sample on.
  pub drifted : F → World F → Manager F → Manager F
  drifted g w s =
      let u = settings.simulation.burst in
      let drift =
        N.mul u.reversion (N.sub (N.of_nat u.mean_concurrent_users) s.concurrency_level) in
      let noise = N.mul g u.volatility in
      let (walked, w') = spiked (N.add s.concurrency_level (N.add drift noise)) w in
      let level = clamped walked in
      record s {
        world = wait (next_update (w'.random w'.drawn)) (record w' { drawn = suc w'.drawn });
        concurrency_level = level;
        burst_active = N.at_most busy_from level;
      }

  -- `step` of `startTrafficModel`; the fuel is for `gaussian`.
  pub traffic_step : ℕ → Manager F → Option (Manager F)
  unfolding gaussian drifted
  traffic_step fuel s =
      if not s.is_running
      then some s
      else elim (gaussian N fuel s.world) [ none ↦ none | some (g, w) ↦ some (drifted g w s) ]

  pub get_current_concurrency : Manager F → F
  get_current_concurrency s =
      if settings.simulation.burst.enabled
      then N.max (N.of_nat 1) (N.round s.concurrency_level)
      else N.of_nat settings.simulation.concurrent_users

  pub get_current_delay : Manager F → F
  get_current_delay s =
      let u = settings.simulation.burst in
      let pause = N.of_nat settings.simulation.new_user_delay_ms in
      let low = N.of_nat u.base_concurrent_users in
      let frac =
        N.div (N.sub s.concurrency_level low)
          (N.max (N.of_nat 1) (N.sub (N.of_nat u.burst_concurrent_users) low)) in
      let fast = N.max (N.of_nat 200) (N.div pause (N.of_nat 4)) in
      let slow = N.mul pause (N.of_nat 2) in
      if u.enabled then N.round (N.sub slow (N.mul frac (N.sub slow fast))) else pause

  pub generate_user : Action (World F) User
  generate_user = do
    x ← draw
    elim (N.below x
        (N.div (N.of_nat settings.simulation.existing_user_percentage) (N.of_nat 100))) [
          | true ↦ do
            y ← draw
            generate_simulation_user settings
                (N.floor (N.mul y (N.of_nat settings.total_users)) + 1)
          | false ↦ generate_new_user settings N
        ]

  abbrev pausing : F → Manager F → Manager F
  pausing ms s = record s { world = wait ms s.world }

  -- One round of `startUserSessionGeneration`; its result is the session that it starts, if any.
  pub generation_round : Manager F → Option (String × User) × Manager F
  unfolding get_current_concurrency get_current_delay generate_user start_user_session
  generation_round s =
      if N.at_most (get_current_concurrency s) (N.of_nat (length s.active_sessions))
      then (none, pausing (N.of_nat 1000) s)
      else let (o, w) = generate_user s.world in
        elim o [
          | thrown e ↦ (none, pausing (N.of_nat 5000) (record s { world = w }))
          | returned user ↦
              let (o', s') = start_user_session N user (record s { world = w }) in
              elim o' [
                | thrown e ↦ (none, pausing (N.of_nat 5000) s')
                | returned session ↦ (some session, pausing (get_current_delay s') s')
              ]
        ]

module _ {F : Type 0} where
  -- `executeUserSessionAsync` after the workflow has ended.
  pub session_ended : String → Outcome (Unit {0}) → Manager F → Manager F
  session_ended id o s = record s {
    active_sessions = delete id s.active_sessions;
    metrics = elim o [
      | returned _ ↦ record s.metrics { successful_sessions = s.metrics.successful_sessions + 1 }
      | thrown _ ↦ record s.metrics { failed_sessions = s.metrics.failed_sessions + 1 }
    ];
  }

  pub start : Manager F → Manager F
  start s = if s.is_running then s else record s {
    is_running = true;
    metrics = record s.metrics { start_time = some (s.world.clock s.world.read) };
    world = record s.world { read = suc s.world.read };
  }

  -- `stop` up to its wait for the active sessions.
  pub stop : Manager F → Manager F
  stop s = if s.is_running then record s { is_running = false } else s

  -- A round of the health checks; a failure is only logged.
  pub check_health : Numbers F → ApiClient → Manager F → Manager F
  check_health N c s =
      if s.is_running
      then record s { world = wait (N.of_nat 30000) (Client.health_check N c s.world).1 }
      else s
