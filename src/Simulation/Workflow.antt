-- ===== src/Simulation/Workflow.antt =====
-- simulation-client/src/workflows/UserWorkflow.js: the class `UserWorkflow`. Its steps are in the
-- children; the sessions put them together.
pub mod Steps
pub mod Accounts
pub mod Movements
pub mod Faults
pub mod Laws
use microsvc.Prelude.{
  ◌&&◌, Bool, true, false, Option, none, some, Json, null, arr, truthy, Items, nil, cons,
  if◌then◌else◌,
}
use microsvc.Simulation.Numbers.{Numbers}
use microsvc.Simulation.Settings.{Settings}
use microsvc.Simulation.Actions.{
  World, Action, Outcome, returned, thrown, pure, throw, catch, ◌>>=◌, ◌>>◌,
}
use microsvc.Simulation.Users.{User, State, outside, current, start_session}
use microsvc.Simulation.Workflow.Steps.{
  Setup, Language, attempt, chance, random_delay, check_availability, perform_registration,
  perform_login, get_user_profile, view_recent_transactions, check_notifications, ask_ai_assistant,
}
use microsvc.Simulation.Workflow.Accounts.{
  has_some, get_accounts_and_balances, ensure_account, export_statement,
}
use microsvc.Simulation.Workflow.Movements.{perform_random_transactions, make_initial_deposit}
use microsvc.Simulation.Workflow.Faults.{first_account, generate_error_traffic}

module _ {F : Type 0} (S : Setup F) where
  -- `enabled && Math.random() < bound`, which draws only where it is enabled.
  abbrev wanted : Bool → F → Action (State F) Bool
  wanted false bound = pure false
  wanted true bound = chance S bound

  -- Steps 5 to 8 of a session of an existing user.
  pub existing_user_traffic : Json → Action (State F) (Unit {0})
  existing_user_traffic accounts = do
    active ← chance S (S.numbers.decimal 7 1)
    elim active [ true ↦ perform_random_transactions S accounts | false ↦ pure tt ]
    get_accounts_and_balances S
    random_delay S
    asking ← wanted S.settings.ai_chat_enabled (S.numbers.decimal 3 1)
    elim asking [ true ↦ ask_ai_assistant S >> random_delay S | false ↦ pure tt ]
    checking ← chance S (S.numbers.decimal 3 1)
    elim checking [ true ↦ check_notifications S | false ↦ pure tt ]

  -- Step 4b: a statement of one of the accounts.
  pub maybe_export : Action (State F) (Unit {0})
  maybe_export = do
    exporting ← wanted S.settings.export_statement_enabled (S.numbers.decimal 1 1)
    u ← current
    elim (exporting && has_some S u.accounts) [
      | true ↦ export_statement S u.accounts >> random_delay S
      | false ↦ pure tt
    ]

  pub execute_existing_user_workflow : Action (State F) (Unit {0})
  unfolding existing_user_traffic maybe_export
  execute_existing_user_workflow = do
    perform_login S
    random_delay S
    get_user_profile S
    random_delay S
    get_accounts_and_balances S
    random_delay S
    accounts ← ensure_account S
    random_delay S
    view_recent_transactions S
    random_delay S
    maybe_export
    existing_user_traffic accounts

  pub execute_new_user_workflow : Action (State F) (Unit {0})
  execute_new_user_workflow = do
    check_availability S
    random_delay S
    perform_registration S
    random_delay S
    perform_login S
    random_delay S
    get_user_profile S
    random_delay S
    get_accounts_and_balances S
    random_delay S
    accounts ← ensure_account S
    random_delay S
    elim (has_some S accounts) [
      | false ↦ pure tt
      | true ↦ do
        make_initial_deposit S (first_account S accounts)
        random_delay S
        get_accounts_and_balances S
        pure tt
    ]

  -- What `executeUserSession` tries.
  pub session : Action (State F) (Unit {0})
  unfolding execute_existing_user_workflow execute_new_user_workflow
  session = do
    start_session
    u ← current
    elim u.is_pre_existing [
      | true ↦ execute_existing_user_workflow
      | false ↦ execute_new_user_workflow
    ]
    generate_error_traffic S

  pub execute_user_session : Action (State F) (Unit {0})
  unfolding session
  execute_user_session = catch (λ e. pure tt) session
