-- ===== src/Simulation/Workflow/Faults.antt =====
-- simulation-client/src/workflows/UserWorkflow.js: the requests that are meant to fail.
use microsvc.Prelude.{
  ℕ, ◌+◌, ◌&&◌, ltb, leb, String, Bool, true, false, Option, none, some, List, [], ◌∷◌, Json, null,
  str, arr, obj, Fields, end, field, nil, cons, truthy, int, num, dec, if◌then◌else◌, ◌⧺◌,
}
use microsvc.Prelude.Lists.{get_elem?, length}
use microsvc.Session.{token_text}
use microsvc.Simulation.Actions.{World, Action, pure, minute, ◌>>=◌, ◌>>◌}
use microsvc.Simulation.Client
use microsvc.Simulation.Client.{type_error}
use microsvc.Simulation.Users.{State, outside, current}
use microsvc.Simulation.Workflow.Steps.{
  Setup, property, lifted, attempt, chance, index_below, credentials, entry,
}
use microsvc.Simulation.Workflow.Accounts.{has_some}

-- `spike.minuteMarks.some(m => minute >= m && minute < m + spike.durationMinutes)`
pub is_marked : ℕ → ℕ → List ℕ → Bool
is_marked now duration [] = false
is_marked now duration (m ∷ marks) =
    let rest = is_marked now duration marks in
    if leb m now && ltb now (m + duration) then true else rest

pub data Scenario : Type 0 where
  missing_account : Scenario
  service_unavailable : Scenario
  bad_login : Scenario
  expired_token : Scenario
  null_description_deposit : Scenario
  overdraw : Scenario
  invalid_amount : Scenario

abbrev pub bag : List Scenario
bag =
    missing_account ∷ service_unavailable ∷ bad_login ∷ expired_token ∷ null_description_deposit
    ∷ []

module _ {F : Type 0} (S : Setup F) where
  -- `user.accounts && user.accounts.length > 0 ? user.accounts[0] : null`
  abbrev pub first_account : Json → Option Json
  first_account (arr nil) = some null
  first_account (arr (cons v vs)) = some v
  first_account v = if has_some S v then S.language.indexed (S.numbers.of_nat 0) v else some null

  abbrev is_there : Option Json → Bool
  is_there none = false
  is_there (some v) = truthy v

  abbrev discard : Action (World F) Json → Action (State F) (Unit {0})
  discard m = outside m >> pure tt

  abbrev odd_transaction : String → Json → String → Option Json → Fields
  odd_transaction kind amount description id =
      field "type" (str kind)
        (field "amount" amount (entry "accountId" id (field "description" (str description) end)))

  -- The request of one scenario; `account` is the user's first, `null` where there is none.
  pub provoke : Scenario → Option Json → Action (State F) (Unit {0})
  provoke bad_login account = do
    u ← current
    discard
        (Client.login S.numbers S.api_client (credentials u.username "definitely-not-the-password"))
  provoke expired_token account =
      discard
        (Client.get_accounts S.numbers S.api_client S.platform (some (str "invalid.expired.token")))
  provoke null_description_deposit account = elim (is_there account) [
    | false ↦ pure tt
    | true ↦ do
      u ← current
      id ← lifted (property "id" account)
      discard (
          Client.deposit S.numbers S.api_client S.platform u.token
            (field "amount" (int 50) (entry "accountId" id end)))
  ]
  provoke missing_account account = do
    u ← current
    discard (
        Client.get_account_balance S.numbers S.api_client S.platform u.token (some (int 999999999)))
  provoke overdraw account = do
    u ← current
    id ← lifted (property "id" account)
    discard (
        Client.create_transaction S.numbers S.api_client S.platform u.token
          (odd_transaction "WITHDRAWAL" (int 100000000) "Simulated overdraw (expected failure)" id))
  provoke invalid_amount account = do
    u ← current
    id ← lifted (property "id" account)
    discard (
        Client.create_transaction S.numbers S.api_client S.platform u.token (
          odd_transaction "DEPOSIT" (num (dec true 100 0))
            "Simulated invalid amount (expected failure)" id))
  provoke service_unavailable account = elim (is_there account) [
    | false ↦ pure tt
    | true ↦ do
      u ← current
      id ← lifted (property "id" account)
      discard (
          Client.raw_request S.numbers S.api_client S.platform u.token "POST"
            ("/api/accounts/" ⧺ token_text S.platform id ⧺ "/export-statement") (obj end))
  ]

  -- The probability of a fault now.
  pub effective_probability : Action (State F) F
  unfolding is_marked
  effective_probability = elim S.settings.simulation.error_spike.enabled [
    | false ↦ pure S.settings.simulation.error_injection.probability
    | true ↦ do
      m ← outside minute
      pure (
          if is_marked m S.settings.simulation.error_spike.duration_minutes
            S.settings.simulation.error_spike.minute_marks
          then S.settings.simulation.error_spike.probability
          else S.settings.simulation.error_injection.probability)
  ]

  pub generate_error_traffic : Action (State F) (Unit {0})
  unfolding provoke effective_probability
  generate_error_traffic = elim S.settings.simulation.error_injection.enabled [
    | false ↦ pure tt
    | true ↦ do
      probability ← effective_probability
      faulty ← chance S probability
      elim faulty [
        | false ↦ pure tt
        | true ↦ do
          u ← current
          i ← index_below S (length bag)
          elim (get_elem? bag i) [
            | none ↦ pure tt
            | some scenario ↦ attempt (provoke scenario (first_account u.accounts))
          ]
      ]
  ]
