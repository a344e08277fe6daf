-- ===== src/Simulation/Workflow/Steps.antt =====
-- simulation-client/src/workflows/UserWorkflow.js: what the workflows share, and their steps that
-- send one request. Log lines are left out, but not the exceptions of what they read.
pub mod Login
use microsvc.Prelude.{
  ℕ, ◌+◌, ◌*◌, String, Bool, true, false, Option, none, some, List, [], ◌∷◌, Json, null, num, str,
  arr, obj, Fields, end, field, Items, nil, cons, get, truthy, if◌then◌else◌, ◌⧺◌, show,
}
use microsvc.Prelude.Lists.{length, get_elem?}
use microsvc.Token.{Platform}
use microsvc.Simulation.Numbers.{Numbers}
use microsvc.Simulation.Settings.{Settings, Range}
use microsvc.Simulation.Actions.{
  World, Action, Outcome, returned, thrown, pure, throw, catch, wait, draw, ◌>>=◌, ◌>>◌,
}
use microsvc.Simulation.Client
use microsvc.Simulation.Client.{ApiClient, type_error}
use microsvc.Simulation.Personas.{get_questions_for_locale}
use microsvc.Simulation.Users.{
  User, State, outside, current, update, update_last_action, set_auth_token,
}

-- How the language treats values of a type that the program does not expect, `none` being `NaN` or
-- `undefined`: `Number(v)` of what is no number, `Number(v.length)`, `v[Math.floor(x * v.length)]`
-- and the text of `v.length || 0` for a `v` that is no array, and the elements of a text.
pub record Language (F : Type 0) : Type 0 where
  pub number_of : Json → Option F
  pub length_of : Json → Option F
  pub indexed : F → Json → Option Json
  pub length_text : Json → String
  pub characters : String → Items

-- The modules that a workflow uses, with the client it was made with.
pub record Setup (F : Type 0) : Type 0 where
  pub numbers : Numbers F
  pub settings : Settings F
  pub api_client : ApiClient
  pub platform : Platform
  pub language : Language F

abbrev pub count : Items → ℕ
count nil = 0
count (cons v vs) = count vs + 1

abbrev pub item : Items → ℕ → Option Json
item nil i = none
item (cons v vs) ℕ.zero = some v
item (cons v vs) (ℕ.suc i) = item vs i

-- `v.key`, where `v` may be missing.
abbrev pub property : String → Option Json → Outcome (Option Json)
property key none = thrown type_error
property key (some null) = thrown type_error
property key (some v) = returned (get key v)

-- `v?.key`
abbrev pub maybe_property : String → Json → Option Json
maybe_property key null = none
maybe_property key v = get key v

-- An entry of a body; what is `undefined` is left out of it.
abbrev pub entry : String → Option Json → Fields → Fields
entry key none rest = rest
entry key (some v) rest = field key v rest

abbrev pub credentials : String → String → Json
credentials username password =
    obj (field "usernameOrEmail" (str username) (field "password" (str password) end))

module _ {F : Type 0} where
  abbrev pub lifted : {A : Type 0} → Outcome A → Action (State F) A
  lifted o s = (o, s)

  -- `try { … } catch (error) { … }` where the handler only writes a log line.
  abbrev pub attempt : Action (State F) (Unit {0}) → Action (State F) (Unit {0})
  attempt m = catch (λ e. pure tt) m

module _ {F : Type 0} (S : Setup F) where
  -- `Math.random() < bound`
  abbrev pub chance : F → Action (State F) Bool
  chance bound = do x ← outside draw; pure (S.numbers.below x bound)

  -- `Math.floor(Math.random() * n)`
  abbrev pub index_below : ℕ → Action (State F) ℕ
  index_below n = do x ← outside draw; pure (S.numbers.floor (S.numbers.mul x (S.numbers.of_nat n)))

  pub random_delay : Action (State F) (Unit {0})
  random_delay s =
      let x = s.world.random s.world.drawn in
      let low = S.numbers.of_nat S.settings.simulation.min_action_delay in
      let high = S.numbers.of_nat S.settings.simulation.max_action_delay in
      let delay = S.numbers.add (S.numbers.mul x (S.numbers.sub high low)) low in
      (returned tt, record s { world = wait delay (record s.world { drawn = s.world.drawn + 1 }) })

  -- A maximum of `none` is `NaN`, and so is the amount then.
  unfoldable pub generate_random_amount : F → Option F → Action (State F) (Option F)
  generate_random_amount low high = do
    x ← outside draw
    pure (elim high [
      | none ↦ none
      | some h ↦
          let hundred = S.numbers.of_nat 100 in
          let amount = S.numbers.add (S.numbers.mul x (S.numbers.sub h low)) low in
          some (S.numbers.div (S.numbers.round (S.numbers.mul amount hundred)) hundred)
    ])

  abbrev pub amount_json : Option F → Json
  amount_json none = null
  amount_json (some x) = num (S.numbers.to_json x)

  pub check_availability : Action (State F) (Unit {0})
  check_availability = attempt do
    u ← current
    outside (Client.check_username S.numbers S.api_client S.platform (some (str u.username)))
    outside (Client.check_email S.numbers S.api_client S.platform (some (str u.email)))
    pure tt

  -- `response && response.key`
  abbrev answered : String → Json → Bool
  answered key response = elim (maybe_property key response) [ none ↦ false | some v ↦ truthy v ]

  abbrev registration_data : User → Json
  registration_data u = obj (
      field "username" (str u.username)
        (field "email" (str u.email) (field "password" (str u.password) end)))

  pub perform_registration : Action (State F) (Unit {0})
  perform_registration = do
    u ← current
    response ← outside (Client.register S.numbers S.api_client (registration_data u))
    update
        (λ u. if answered "id" response then record u { id = maybe_property "id" response } else u)
    update_last_action

  abbrev logged_in : Json → User → User
  logged_in response u =
      if answered "token" response
      then record (set_auth_token (maybe_property "token" response) u) {
        id = maybe_property "id" response;
      }
      else u

  pub perform_login : Action (State F) (Unit {0})
  perform_login = do
    u ← current
    response ← outside (Client.login S.numbers S.api_client (credentials u.username u.password))
    update (logged_in response)
    update_last_action

  pub get_user_profile : Action (State F) Json
  get_user_profile = do
    u ← current
    profile ← outside (Client.get_user_profile S.numbers S.api_client S.platform u.token)
    update_last_action
    pure profile

  pub view_recent_transactions : Action (State F) (Unit {0})
  view_recent_transactions = attempt do
    u ← current
    outside (Client.get_recent_transactions S.numbers S.api_client S.platform u.token)
    update_last_action

  pub check_notifications : Action (State F) (Unit {0})
  check_notifications = attempt do
    u ← current
    outside (Client.get_notifications S.numbers S.api_client S.platform u.id)
    update_last_action

  -- The number of accounts in a text.
  abbrev account_count : Json → String
  account_count (arr vs) = show (count vs)
  account_count v = S.language.length_text v

  abbrev account_context : User → String
  account_context u =
      "Customer: "
      ⧺ u.display_name
      ⧺ "\nLocale: "
      ⧺ u.locale
      ⧺ "\nAccount count: "
      ⧺ account_count u.accounts

  -- A draw is below 1, so there is always a question.
  pub ask_ai_assistant : Action (State F) (Unit {0})
  ask_ai_assistant = do
    u ← current
    i ← index_below (length (get_questions_for_locale u.locale))
    elim (get_elem? (get_questions_for_locale u.locale) i) [
      | none ↦ pure tt
      | some question ↦ attempt do
        outside (
            Client.ask_ai_chat S.numbers S.api_client S.platform u.token question u.locale
              (account_context u))
        update_last_action
    ]
