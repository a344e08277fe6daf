-- ===== src/Simulation/Manager/Steps.antt =====
-- The simulation over time: the manager's timers and the ends of the sessions that it has started,
-- in any order, with the traffic of the sessions in between.
use mathlib.Core.List.{◌++◌}
use microsvc.Prelude.{
  not, ℕ, ◌+◌, ◌≤◌, ◌||◌, String, Bool, true, false, Option, none, some, List, [], ◌∷◌, ◌≡◌, lookup,
  str_eq, is_some,
}
use microsvc.Prelude.Lists.{length}
use microsvc.Simulation.Numbers.{Numbers}
use microsvc.Simulation.Client
use microsvc.Simulation.Actions.{World}
use microsvc.Simulation.Users.{User, State}
use microsvc.Simulation.Workflow.Steps.{Setup}
use microsvc.Simulation.Workflow.{execute_user_session}
use microsvc.Simulation.Manager.{
  Manager, new_manager, traffic_step, generation_round, session_ended, start, stop, check_health,
}
use microsvc.Simulation.Manager.Laws.{peak, limit}

-- The manager, with the identities of the sessions that have begun and not ended.
pub record Simulation (F : Type 0) : Type 0 where
  pub manager : Manager F
  pub in_flight : List String

abbrev pub has : String → List String → Bool
has k [] = false
has k (x ∷ xs) = str_eq x k || has k xs

-- What a round adds to the sessions in flight.
abbrev pub begun : Option (String × User) → List String → List String
begun none ids = ids
begun (some (id, u)) ids = id ∷ ids

module _ {F : Type 0} (S : Setup F) where
  pub data Step (s t : Simulation F) : Type 0 where
    starting : t ≡ record s { manager = start s.manager } → Step s t
    stopping : t ≡ record s { manager = stop s.manager } → Step s t
    checking_health :
        t ≡ record s { manager = check_health S.numbers S.api_client s.manager } → Step s t
    drifting :
        (fuel : ℕ) (m : Manager F)
        → traffic_step S.numbers S.settings fuel s.manager ≡ some m
        → t ≡ record s { manager = m }
        → Step s t
    generating :
        s.manager.is_running ≡ true
        → t ≡ (
            let (o, m) = generation_round S.numbers S.settings s.manager in
            record { manager = m; in_flight = begun o s.in_flight })
        → Step s t
    -- The session has run its workflow, in whatever states the rest of the program left to it.
    ending :
        (before after : List String) (id : String) (its : State F)
        → s.in_flight ≡ before ++ id ∷ after
        → t ≡ record {
          manager = session_ended id (execute_user_session S its).0 s.manager;
          in_flight = before ++ after;
        }
        → Step s t
    -- Requests, draws and waits of the sessions.
    working : (w : World F) → t ≡ record s { manager = record s.manager { world = w } } → Step s t

  pub data Reach (w : World F) : Simulation F → Type 0 where
    new : Reach w (record { manager = new_manager S.numbers S.settings w; in_flight = [] })
    next : {s t : Simulation F} → Reach w s → Step s t → Reach w t

  -- What holds of the manager between two steps.
  pub record IsSound (s : Simulation F) : Type 0 where
    pub counted :
        s.manager.metrics.total_sessions
        ≡ s.manager.metrics.successful_sessions + length s.in_flight
    pub never_failed : s.manager.metrics.failed_sessions ≡ 0
    pub by_kind :
        s.manager.metrics.total_sessions
        ≡ s.manager.metrics.new_user_registrations + s.manager.metrics.existing_user_logins
    pub low :
        S.numbers.at_most s.manager.concurrency_level (S.numbers.of_nat (peak S.settings)) ≡ true
    pub within : length s.manager.active_sessions ≤ limit S.settings
    -- a key of the map is that of a session in flight
    pub alive :
        (k : String)
        → (not (is_some (lookup k s.manager.active_sessions)) || has k s.in_flight) ≡ true
