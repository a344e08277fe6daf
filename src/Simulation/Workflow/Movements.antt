-- ===== src/Simulation/Workflow/Movements.antt =====
-- simulation-client/src/workflows/UserWorkflow.js: the transactions of a session.
pub mod Laws
use microsvc.Prelude.{
  ℕ, zero, suc, ◌+◌, ◌==◌, String, Bool, true, false, not, ◌&&◌, ◌||◌, Option, none, some, Json,
  null, bool, num, str, arr, obj, Fields, end, field, Items, nil, cons, get, truthy, truthy?,
  or_default, int, is_nonempty, str_eq, if◌then◌else◌, Number, dec, is_nonzero,
}
use microsvc.Simulation.Numbers.{Numbers}
use microsvc.Simulation.Settings.{Range, Transactions}
use microsvc.Simulation.Actions.{
  World, Action, Outcome, returned, thrown, pure, throw, catch, draw, ◌>>=◌, ◌>>◌,
}
use microsvc.Simulation.Client
use microsvc.Simulation.Client.{type_error, same}
use microsvc.Simulation.Users.{User, State, outside, current, update, update_last_action}
use microsvc.Simulation.Workflow.Steps.{
  Setup, Language, count, item, property, maybe_property, lifted, attempt, chance, index_below,
  random_delay, generate_random_amount, amount_json, entry,
}

pub data TransactionType : Type 0 where
  deposit : TransactionType
  withdrawal : TransactionType
  transfer : TransactionType

-- `a === b` on values that may be missing
abbrev pub same_id : Option Json → Option Json → Bool
same_id none none = true
same_id (some a) (some b) = same a b
same_id _ _ = false

-- `accounts.find(acc => acc.id !== account.id)`, where `account` is the element in the place `k`:
-- its `id` is the same as itself, also where it is an object.
pub other_account : Items → Option ℕ → Option Json → Outcome (Option Json)
other_account nil k id = returned none
other_account (cons null accounts) k id = thrown type_error
other_account (cons account accounts) (some zero) id = other_account accounts none id
other_account (cons account accounts) k id =
    let rest = other_account accounts (elim k [ some (suc k') ↦ some k' | _ ↦ none ]) id in
    if same_id (get "id" account) id then rest else returned (some account)

module _ {F : Type 0} (S : Setup F) where
  pub select_transaction_type : Action (State F) TransactionType
  select_transaction_type = do
    let t = S.settings.transactions
    rand ← outside draw
    pure (
        if S.numbers.below rand t.deposit_probability
        then deposit
        else if S.numbers.below rand (S.numbers.add t.deposit_probability t.withdrawal_probability)
        then withdrawal
        else if S.numbers.below rand (
            S.numbers.add (S.numbers.add t.deposit_probability t.withdrawal_probability)
              t.transfer_probability)
        then transfer
        else deposit)

  -- `Number(account.balance || 0)`
  abbrev pub amount_of : Option Json → Option F
  amount_of none = some (S.numbers.of_nat 0)
  amount_of (some (num n)) =
      if is_nonzero n then some (S.numbers.of_json n) else some (S.numbers.of_nat 0)
  amount_of (some v) = if truthy v then S.language.number_of v else some (S.numbers.of_nat 0)

  -- `Math.min(account.balance || 0, range.max)`
  abbrev pub bounded : Option Json → Range F → Option F
  bounded balance range = elim (amount_of balance) [
    | none ↦ none
    | some b ↦ some (S.numbers.min b range.max)
  ]

  -- `most < range.min`
  abbrev pub too_low : Option F → Range F → Bool
  too_low none range = false
  too_low (some most) range = S.numbers.below most range.min

  abbrev pub kind : TransactionType → String
  kind deposit = "DEPOSIT"
  kind withdrawal = "WITHDRAWAL"
  kind transfer = "TRANSFER"

  abbrev movement : TransactionType → String → Option F → Option Json → Fields
  movement t description amount id = field "type" (str (kind t)) (
      field "amount" (amount_json S amount)
        (entry "accountId" id (field "description" (str description) end)))

  abbrev pub transfer_fields : Option F → Option Json → Option Json → Fields
  transfer_fields amount from to = field "type" (str "TRANSFER") (
      field "amount" (amount_json S amount) (
        entry "fromAccountId" from
          (entry "toAccountId" to (field "description" (str "Simulation transfer") end))))

  pub deposit_data : Option Json → Action (State F) (Option Fields)
  deposit_data account = do
    let range = S.settings.transactions.deposit_range
    amount ← generate_random_amount S range.min (some range.max)
    id ← lifted (property "id" account)
    pure (some (movement deposit "Simulation deposit" amount id))

  -- `none` where the balance is below the least withdrawal.
  pub withdrawal_data : Option Json → Action (State F) (Option Fields)
  withdrawal_data account = do
    let range = S.settings.transactions.withdrawal_range
    balance ← lifted (property "balance" account)
    elim (too_low (bounded balance range) range) [
      | true ↦ pure none
      | false ↦ do
        amount ← generate_random_amount S range.min (bounded balance range)
        id ← lifted (property "id" account)
        pure (some (movement withdrawal "Simulation withdrawal" amount id))
    ]

  abbrev fewer_than_two : Json → Bool
  fewer_than_two (arr nil) = true
  fewer_than_two (arr (cons v nil)) = true
  fewer_than_two (arr (cons v (cons w vs))) = false
  fewer_than_two v = elim (S.language.length_of v) [
    | none ↦ false
    | some n ↦ S.numbers.below n (S.numbers.of_nat 2)
  ]

  -- The destination; only an array has a method `find`.
  abbrev pub destination : Json → ℕ → Option Json → Outcome (Option Json)
  destination (arr vs) k id = other_account vs (some k) id
  destination v k id = thrown type_error

  -- The data of a transfer to the account that was found; `none` where the balance is below the
  -- least transfer.
  pub transfer_to :
      (id balance : Option Json) (other : Option Json) → Action (State F) (Option Fields)
  transfer_to id balance other = do
    let range = S.settings.transactions.transfer_range
    elim (too_low (bounded balance range) range) [
      | true ↦ pure none
      | false ↦ do
        amount ← generate_random_amount S range.min (bounded balance range)
        id' ← lifted (property "id" other)
        pure (some (transfer_fields amount id id'))
    ]

  -- `none` also where there is no other account.
  pub transfer_data : Json → ℕ → Option Json → Action (State F) (Option Fields)
  unfolding transfer_to
  transfer_data accounts k account = elim (fewer_than_two accounts) [
    | true ↦ pure none
    | false ↦ do
      id ← lifted (property "id" account)
      other ← lifted (destination accounts k id)
      balance ← lifted (property "balance" account)
      transfer_to id balance other
  ]

  -- The account, with its place in the list.
  abbrev placed : Json → Action (State F) (ℕ × Option Json)
  placed (arr vs) = do i ← index_below S (count vs); pure (i, item vs i)
  placed v = do x ← outside draw; pure (0, S.language.indexed x v)

  pub transaction_data : TransactionType → Json → ℕ → Option Json → Action (State F) (Option Fields)
  unfolding deposit_data withdrawal_data transfer_data
  transaction_data deposit accounts k account = deposit_data account
  transaction_data withdrawal accounts k account = withdrawal_data account
  transaction_data transfer accounts k account = transfer_data accounts k account

  -- The endpoint for a kind of transaction.
  abbrev dedicated : TransactionType → Option Json → Fields → Action (World F) Json
  dedicated deposit = Client.deposit S.numbers S.api_client S.platform
  dedicated withdrawal = Client.withdraw S.numbers S.api_client S.platform
  dedicated transfer = Client.transfer S.numbers S.api_client S.platform

  -- The transaction that was just made, in half of the cases.
  pub fetch_transaction : Option Json → Json → Action (State F) (Unit {0})
  fetch_transaction token result = elim (truthy? (maybe_property "id" result)) [
    | false ↦ pure tt
    | true ↦ do
      curious ← chance S (S.numbers.decimal 5 1)
      elim curious [
        | false ↦ pure tt
        | true ↦ attempt do
          outside (
              Client.get_transaction S.numbers S.api_client S.platform token
                (or_default (maybe_property "id" result) null))
          pure tt
      ]
  ]

  pub submit : TransactionType → Fields → Action (State F) (Unit {0})
  unfolding fetch_transaction
  submit t data' = do
    u ← current
    use_dedicated ← chance S (S.numbers.decimal 3 1)
    result ← outside (elim use_dedicated [
      | true ↦ dedicated t u.token data'
      | false ↦ Client.create_transaction S.numbers S.api_client S.platform u.token data'
    ])
    fetch_transaction u.token result
    update_last_action

  pub perform_random_transaction : Json → Action (State F) (Unit {0})
  unfolding select_transaction_type transaction_data submit
  perform_random_transaction accounts = do
    pair ← placed accounts
    t ← select_transaction_type
    found ← transaction_data t accounts pair.0 pair.1
    elim found [ none ↦ pure tt | some data' ↦ submit t data' ]

  -- `for (let i = 0; i < transactionCount; i++)`, by what is left.
  pub random_transactions : ℕ → Json → Action (State F) (Unit {0})
  random_transactions zero accounts = pure tt
  random_transactions (suc left) accounts =
      let rest = random_transactions left accounts in
      do
        attempt do perform_random_transaction accounts; random_delay S
        rest

  -- `accounts.length === 0` for a value that is truthy
  abbrev has_none : Json → Bool
  has_none (arr nil) = true
  has_none (obj fields) = elim (get "length" (obj fields)) [
    | none ↦ false
    | some l ↦ same l (int 0)
  ]
  has_none v = false

  pub perform_random_transactions : Json → Action (State F) (Unit {0})
  unfolding random_transactions
  perform_random_transactions accounts = elim (not (truthy accounts) || has_none accounts) [
    | true ↦ pure tt
    | false ↦ do n ← index_below S 3; random_transactions (n + 1) accounts
  ]

  pub make_initial_deposit : Option Json → Action (State F) (Unit {0})
  make_initial_deposit account = do
    u ← current
    amount ← generate_random_amount S (S.numbers.of_nat 50) (some (S.numbers.of_nat 500))
    id ← lifted (property "id" account)
    outside (
        Client.create_transaction S.numbers S.api_client S.platform u.token
          (movement deposit "Initial deposit for new user" amount id))
    update_last_action
