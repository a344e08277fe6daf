-- ===== src/Forms.antt =====
-- frontend/src/app/accounts/[id]: the forms of the pages deposit, withdraw and transfer, with what
-- they load and what their submission does. Rendering is left out.
pub mod Checks
pub mod Laws
pub mod View
mod Tests
use microsvc.Prelude.{
  ℕ, ◌*◌, ◌^◌, ltb, ◌==◌, not, ◌&&◌, ◌||◌, String, Bool, true, false, Option, none, some, Json,
  null, str, arr, num, Items, nil, cons, Number, dec, get, truthy, truthy?, or_default, is_nonempty,
  str_eq, if◌then◌else◌, ◌⧺◌, int,
}
use microsvc.Web.{Cookies, World, log, console}
use microsvc.Token.{Platform, number_of}
use microsvc.Client.Errors.{ApiResponse}
use microsvc.AccountsApi
use microsvc.TransactionsApi

-- What the pages read a text as: `none` is `NaN`. The identity of an account in an address is a
-- number.
pub record Language : Type 0 where
  pub parse_float : String → Option Number
  pub parse_int : String → ℕ
  pub trim : String → String
  -- `String(v)`
  pub text : Option Json → String

-- The state of a page. `account_id` is the page's parameter, `account` the account that was loaded,
-- and `next` the address that a timer goes to. The accounts to choose from and the destination are
-- the transfer's.
pub record Page (Jar : Type 0) : Type 0 where
  pub world : World Jar
  pub account_id : String
  pub account : Option Json
  pub amount : String
  pub description : String
  pub to_account_id : String
  pub available_accounts : Json
  pub is_loading : Bool
  pub is_submitting : Bool
  pub error : Option Json
  pub success : Bool
  pub next : Option String

-- `a <= 0`
abbrev pub at_most_zero : Option Number → Bool
at_most_zero none = false
at_most_zero (some (dec sign digits places)) = sign || digits == 0

-- `a < b`
abbrev pub below : Number → Number → Bool
below (dec true d p) (dec true d' p') = ltb (d' * 10 ^ p) (d * 10 ^ p')
below (dec true d p) (dec false d' p') = ltb 0 d || ltb 0 d'
below (dec false d p) (dec true d' p') = false
below (dec false d p) (dec false d' p') = ltb (d * 10 ^ p') (d' * 10 ^ p)

-- `account && amount > account.balance`; `NaN` and a balance that is not there exceed nothing.
abbrev pub exceeds : Platform → Option Number → Option Json → Bool
exceeds p amount none = false
exceeds p none (some account) = false
exceeds p (some a) (some account) = elim (get "balance" account) [
  | none ↦ false
  | some b ↦ elim (number_of p b) [ none ↦ false | some n ↦ below n a ]
]

-- The checks that the three forms share: the first that fails says what is shown.
module _ {Jar : Type 0} (l : Language) (page : Page Jar) where
  abbrev pub bad_amount : Bool
  bad_amount = not (is_nonempty page.amount) || at_most_zero (l.parse_float page.amount)

  abbrev pub no_description : Bool
  no_description = not (is_nonempty (l.trim page.description))

  pub deposit_refusal : Option String
  deposit_refusal =
      if bad_amount
      then some "Please enter a valid amount"
      else if no_description
      then some "Please enter a description"
      else none

  pub withdrawal_refusal : Platform → Option String
  withdrawal_refusal p =
      if bad_amount
      then some "Please enter a valid amount"
      else if no_description
      then some "Please enter a description"
      else if exceeds p (l.parse_float page.amount) page.account
      then some "Insufficient funds. You cannot withdraw more than your current balance."
      else none

  pub transfer_refusal : Platform → Option String
  transfer_refusal p =
      if bad_amount
      then some "Please enter a valid amount"
      else if not (is_nonempty page.to_account_id)
      then some "Please select a destination account"
      else if str_eq page.to_account_id page.account_id
      then some "You cannot transfer to the same account"
      else if no_description
      then some "Please enter a description"
      else if exceeds p (l.parse_float page.amount) page.account
      then some "Insufficient funds. You cannot transfer more than your current balance."
      else none

-- `account?.currency || 'USD'`
abbrev pub currency : Option Json → Json
currency none = str "USD"
currency (some account) = or_default (get "currency" account) (str "USD")

module _ {Jar : Type 0} where
  -- What a form does with the answer to its request; `otherwise` is shown where it has no message.
  pub submitted : String → ApiResponse × World Jar → Page Jar → Page Jar
  submitted otherwise (r, w) page =
      if r.success
      then record page {
        world = w;
        is_submitting = false;
        error = none;
        success = true;
        next = some ("/accounts/" ⧺ page.account_id);
      }
      else record page {
        world = w;
        is_submitting = false;
        error = some (or_default r.message (str otherwise));
      }

  abbrev pub refused : String → Page Jar → Page Jar
  refused text page = record page { error = some (str text) }

-- `response.success && response.data`
abbrev pub loaded : ApiResponse → Option Json
loaded r = if r.success && truthy? r.result then r.result else none

abbrev pub load_error : ApiResponse → Json
load_error r = or_default r.message (str "Failed to load account details")

-- `a.id !== id`
abbrev is_other : ℕ → Option Json → Bool
is_other id (some (num (dec sign d places))) = not (d == id * 10 ^ places) || (sign && ltb 0 d)
is_other id v = true

-- `listRes.data.filter((a) => a.id !== id)`; `none` is the exception of an element that is `null`.
pub others : ℕ → Items → Option Items
others id nil = some nil
others id (cons null accounts) = none
others id (cons account accounts) = elim (others id accounts) [
  | none ↦ none
  | some rest ↦ some (if is_other id (get "id" account) then cons account rest else rest)
]

-- What the transfer page takes from the list of accounts; only an array has a method `filter`.
abbrev destinations : ℕ → Json → Option Items
destinations id (arr accounts) = others id accounts
destinations id v = none

module _ {Jar : Type 0} where
  -- The demonstration fills in the form, where there is an account to transfer to.
  pub filled : Language → (is_demo : Bool) → Items → Page Jar → Page Jar
  filled l false accounts page = page
  filled l true nil page = page
  filled l true (cons account accounts) page = record page {
    to_account_id = l.text (get "id" account);
    amount = "125.00";
    description = "Emergency fund transfer";
  }

  -- The end of the transfer page's loading, from the list on.
  pub listed : Language → (is_demo : Bool) → ApiResponse → Page Jar → Page Jar
  unfolding others filled
  listed l is_demo r page = elim (loaded r) [
    | none ↦ page
    | some accounts ↦ elim (destinations (l.parse_int page.account_id) accounts) [
      | none ↦ record page { error = some (str "Failed to load account details") }
      | some found ↦ filled l is_demo found (record page { available_accounts = arr found })
    ]
  ]

module _ {Jar : Type 0} ⦃C : Cookies Jar⦄ (p : Platform) (l : Language) where
  -- `handleSubmit` of the page deposit. The calls report their errors and throw nothing.
  pub submit_deposit : Page Jar → Page Jar
  unfolding deposit_refusal submitted
  submit_deposit page = elim (deposit_refusal l page) [
    | some text ↦ refused text page
    | none ↦
        submitted "Failed to process deposit"
          (TransactionsApi.create_deposit p (l.parse_int page.account_id)
            (l.parse_float page.amount) (l.trim page.description) (some (currency page.account))
            page.world)
          page
  ]

  -- `handleSubmit` of the page withdraw.
  pub submit_withdrawal : Page Jar → Page Jar
  unfolding withdrawal_refusal submitted
  submit_withdrawal page = elim (withdrawal_refusal l page p) [
    | some text ↦ refused text page
    | none ↦
        submitted "Failed to process withdrawal"
          (TransactionsApi.create_withdrawal p (l.parse_int page.account_id)
            (l.parse_float page.amount) (l.trim page.description) (some (currency page.account))
            page.world)
          page
  ]

  -- `handleSubmit` of the page transfer.
  pub submit_transfer : Page Jar → Page Jar
  unfolding transfer_refusal submitted
  submit_transfer page = elim (transfer_refusal l page p) [
    | some text ↦ refused text page
    | none ↦
        submitted "Failed to process transfer"
          (TransactionsApi.create_transfer p (l.parse_int page.account_id)
            (l.parse_int page.to_account_id) (l.parse_float page.amount) (l.trim page.description)
            (some (currency page.account)) page.world)
          page
  ]

  -- `fetchAccountDetails` of the pages deposit and withdraw.
  pub fetch_account_details : Page Jar → Page Jar
  fetch_account_details page =
      let (r, w) = AccountsApi.get_account (l.parse_int page.account_id) page.world in
      elim (loaded r) [
        | some account ↦ record page {
          world = w;
          account = some account;
          error = none;
          is_loading = false;
        }
        | none ↦ record page { world = w; error = some (load_error r); is_loading = false }
      ]

  -- `fetchAccountDetails` of the page transfer; the two requests go out one after the other.
  pub fetch_transfer_details : (is_demo : Bool) → Page Jar → Page Jar
  unfolding listed
  fetch_transfer_details is_demo page =
      let (r, w) = AccountsApi.get_account (l.parse_int page.account_id) page.world in
      let (r', w') = AccountsApi.get_accounts w in
      let page' = record page { world = w'; is_loading = false } in
      elim (loaded r) [
        | none ↦ record page' { error = some (load_error r) }
        | some account ↦ listed l is_demo r' (record page' { account = some account; error = none })
      ]
