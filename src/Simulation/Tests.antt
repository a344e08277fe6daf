-- ===== src/Simulation/Tests.antt =====
-- The theorems about the simulation at the samples.
use microsvc.Prelude.{some, ◌≡◌, refl, null}
use microsvc.Simulation.Actions.{returned}
use microsvc.Simulation.Client.Endpoints.{
  get_accounts, IsRepeated, perform, tries_of, request_of, perform-IsRepeated,
}
use microsvc.Simulation.Workflow.{execute_user_session}
use microsvc.Simulation.Workflow.Laws.{IsTurnedDown, execute_user_session-IsTurnedDown}
use microsvc.Simulation.Samples.{numbers, world, client, setup, state, unreachable}
use microsvc.Samples.{platform}

perform-IsRepeated_example :
    let op = get_accounts (some null) in
    IsRepeated numbers client
      (tries_of client op)
      0
      (request_of client platform op)
      world
      (perform numbers client platform op world).1
perform-IsRepeated_example =
    perform-IsRepeated numbers client platform (get_accounts (some null)) world

execute_user_session-IsTurnedDown_example :
    ((execute_user_session setup state).0 ≡ returned tt)
    × IsTurnedDown setup state (execute_user_session setup state).1
execute_user_session-IsTurnedDown_example =
    execute_user_session-IsTurnedDown setup state unreachable refl (λ n. refl)
