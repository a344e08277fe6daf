-- ===== src/Simulation/Workflow/Accounts.antt =====
-- simulation-client/src/workflows/UserWorkflow.js: the user's accounts, and the first of them.
use microsvc.Prelude.{
  Bool, true, false, ◌&&◌, Option, none, some, Json, null, str, arr, obj, Fields, end, field, Items,
  nil, cons, get, truthy, or_default, int, str_eq, if◌then◌else◌,
}
use microsvc.Simulation.Actions.{
  Action, Outcome, returned, thrown, pure, throw, catch, draw, ◌>>=◌, ◌>>◌,
}
use microsvc.Simulation.Client
use microsvc.Simulation.Client.{type_error}
use microsvc.Simulation.Users.{State, outside, current, update, update_last_action}
use microsvc.Simulation.Workflow.Steps.{
  Setup, count, item, property, lifted, attempt, chance, index_below,
}

-- An assignment to the property `balance`; one of `undefined` takes it away.
abbrev with_balance : Option Json → Fields → Fields
with_balance none end = end
with_balance (some b) end = field "balance" b end
with_balance b (field k v rest) =
    let others = with_balance b rest in
    if str_eq k "balance"
    then elim b [ none ↦ rest | some b' ↦ field k b' rest ]
    else field k v others

-- What the balance of an account becomes; a text or a number has no properties to assign to. An
-- account that is an array keeps no balance here.
abbrev pub balanced : Option Json → Json → Outcome Json
balanced b (obj fields) = returned (obj (with_balance b fields))
balanced b (arr vs) = returned (arr vs)
balanced b v = thrown type_error

-- `typeof balanceResp === 'object' ? balanceResp.balance : balanceResp`
abbrev pub balance_of : Json → Outcome (Option Json)
balance_of null = thrown type_error
balance_of (obj fields) = returned (get "balance" (obj fields))
balance_of (arr vs) = returned none
balance_of v = returned (some v)

abbrev accounts_summed : Items → Outcome (Unit {0})
accounts_summed nil = returned tt
accounts_summed (cons null vs) = thrown type_error
accounts_summed (cons v vs) = accounts_summed vs

-- What the log line about the accounts throws; it sums up the balances of an array.
abbrev summed : Json → Outcome (Unit {0})
summed (arr vs) = accounts_summed vs
summed v = thrown type_error

module _ {F : Type 0} (S : Setup F) where
  -- `v && v.length > 0`
  pub has_some : Json → Bool
  has_some (arr nil) = false
  has_some (arr (cons v vs)) = true
  has_some v = truthy v && (elim (S.language.length_of v) [
    | none ↦ false
    | some n ↦ S.numbers.below (S.numbers.of_nat 0) n
  ])

  -- `v[Math.floor(Math.random() * v.length)]`
  pub pick : Json → Action (State F) (Option Json)
  pick (arr vs) = do i ← index_below S (count vs); pure (item vs i)
  pick v = do x ← outside draw; pure (S.language.indexed x v)

  -- The balance of one account, of which a log line reads the `id` again where that failed.
  pub account_balance : Option Json → Json → Action (State F) Json
  account_balance token account =
      catch (λ e. pure account)
        do
          id ← lifted (property "id" (some account))
          b ← outside (Client.get_account_balance S.numbers S.api_client S.platform token id)
          b' ← lifted (balance_of b)
          lifted (balanced b' account)

  -- `for (const account of accounts)`: `null` is thrown out of the loop by the log line about it.
  pub balances : Option Json → Items → Action (State F) Items
  unfolding account_balance
  balances token nil = pure nil
  balances token (cons null accounts) = throw type_error
  balances token (cons account accounts) =
      let others = balances token accounts in
      do
        account' ← account_balance token account
        accounts' ← others
        pure (cons account' accounts')

  -- The loop over the accounts, of which only an array keeps what it assigns.
  pub all_balances : Option Json → Json → Action (State F) Json
  unfolding balances
  all_balances token (arr accounts) = do accounts' ← balances token accounts; pure (arr accounts')
  all_balances token (str s) = do balances token (S.language.characters s); pure (str s)
  all_balances token v = throw type_error

  -- The details and the transactions of one account; both need its `id`, for their log line too.
  pub account_details : Option Json → Json → Action (State F) (Unit {0})
  unfolding pick
  account_details token accounts = do
    account ← pick accounts
    id ← lifted (property "id" account)
    attempt
        do outside (Client.get_account_by_id S.numbers S.api_client S.platform token id); pure tt
    attempt do
      outside (Client.get_account_transactions S.numbers S.api_client S.platform token id)
      pure tt

  pub inspected : Option Json → Json → Action (State F) Json
  unfolding all_balances account_details
  inspected token accounts = do
    accounts' ← all_balances token accounts
    curious ← chance S (S.numbers.decimal 4 1)
    elim curious [ true ↦ account_details token accounts' | false ↦ pure tt ]
    pure accounts'

  pub get_accounts_and_balances : Action (State F) Json
  unfolding has_some inspected
  get_accounts_and_balances = do
    u ← current
    accounts ← outside (Client.get_accounts S.numbers S.api_client S.platform u.token)
    accounts' ← elim (has_some accounts) [
      | true ↦ inspected u.token accounts
      | false ↦ pure accounts
    ]
    update (λ u. record u { accounts = or_default (some accounts') (arr nil) })
    u' ← current
    lifted (summed u'.accounts)
    update_last_action
    pure u'.accounts

  abbrev first_account : Json
  first_account = obj (field "accountType" (str "CHECKING") (field "initialBalance" (int 500) end))

  pub ensure_account : Action (State F) Json
  unfolding get_accounts_and_balances
  ensure_account = do
    u ← current
    elim (has_some u.accounts) [
      | true ↦ pure u.accounts
      | false ↦
          catch (λ e. current >>= λ u'. pure (or_default (some u'.accounts) (arr nil)))
            do
              outside
                  (Client.create_account S.numbers S.api_client S.platform u.token first_account)
              get_accounts_and_balances
    ]

  pub export_statement : Json → Action (State F) (Unit {0})
  unfolding pick
  export_statement accounts = do
    account ← pick accounts
    u ← current
    id ← lifted (property "id" account)
    attempt do
      outside (Client.export_statement S.numbers S.api_client S.platform u.token id)
      update_last_action
