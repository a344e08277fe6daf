-- ===== src/Forms/View.antt =====
-- frontend/src/app/accounts/[id]: what the pages deposit, withdraw and transfer show. `none` is a
-- rendering that throws.
pub mod Laws
use microsvc.Prelude.{
  or_else, String, Bool, true, false, not, ◌&&◌, Option, none, some, List, [], Json, null, bool,
  num, str, arr, obj, Items, get, truthy?, or_default, if◌then◌else◌, ◌⧺◌,
}
use microsvc.Forms.{Page, currency}
use microsvc.Pages.{Display, ◌>>=◌, child, child_text, as_array, not_null, mapped}
use microsvc.Pages.Transactions.{shown_error}
use microsvc.Pages.Accounts.{written}

pub data Kind : Type 0 where
  deposit withdrawal transfer : Kind

-- An account to transfer to, in the list of them.
pub record Choice : Type 0 where
  pub value : Option Json
  pub label : String

-- The form with what stands around it. `maximum` is the text below the amount.
pub record FormView : Type 0 where
  pub kind : Option String
  pub number : Option Json
  pub balance : Option String
  pub succeeded : Bool
  pub error : Option Json
  pub amount_currency : Json
  pub maximum : Option String
  pub choices : List Choice
  pub can_submit : Bool
  pub button : String

pub data View : Type 0 where
  spinner not_found : View
  form : FormView → View

-- `account?.accountType?.toLowerCase()`
abbrev pub kind_of : {Value : Type 0} → Display Value → Option Json → Option (Option String)
kind_of d none = some none
kind_of d (some null) = some none
kind_of d (some (bool b)) = none
kind_of d (some (num n)) = none
kind_of d (some (str s)) = some (some (d.lower s))
kind_of d (some (arr items)) = none
kind_of d (some (obj fields)) = none

abbrev pub button_of : Kind → (is_submitting : Bool) → String
button_of kind true = "Processing..."
button_of deposit false = "Process Deposit"
button_of withdrawal false = "Process Withdrawal"
button_of transfer false = "Process Transfer"

module _ {Value : Type 0} (d : Display Value) where
  -- `formatCurrency(account.balance, account.currency)`; a currency that is not there is refused.
  abbrev pub balance_of : Json → Option String
  balance_of account =
      get "currency" account >>= λ code. d.money code (d.value (get "balance" account))

  -- `account && …`, which formats the balance of an account that is there.
  abbrev pub balance_of? : Option Json → Option (Option String)
  balance_of? none = some none
  balance_of? (some account) = balance_of account >>= λ text. some (some text)

  abbrev maximum_of : Kind → Option String → Option String
  maximum_of deposit balance = none
  maximum_of withdrawal none = some "N/A"
  maximum_of withdrawal (some text) = some text
  maximum_of transfer none = some "N/A"
  maximum_of transfer (some text) = some text

  pub choice : Json → Option Choice
  choice v = not_null v >>= λ account. balance_of account >>= λ balance.
      child_text d.text (or_else (get "accountNumber" account) null) >>= λ number.
      child_text d.text (or_else (get "accountType" account) null) >>= λ type.
      some
        (record { value = get "id" account; label = number ⧺ " - " ⧺ type ⧺ " (" ⧺ balance ⧺ ")" })

  -- The destinations, which the transfer's form lists.
  abbrev pub choices_of : Kind → Json → Option (List Choice)
  choices_of deposit accounts = some []
  choices_of withdrawal accounts = some []
  choices_of transfer accounts = as_array accounts >>= mapped choice

  abbrev pub type_of : Option Json → Option Json
  type_of none = none
  type_of (some account) = get "accountType" account

  pub render_form : {Jar : Type 0} → Kind → Page Jar → Option FormView
  unfolding choice
  render_form kind page = kind_of d (type_of page.account) >>= λ type.
      balance_of? page.account >>= λ balance. choices_of kind page.available_accounts >>= λ choices.
      child (elim page.account [ none ↦ none | some account ↦ get "accountNumber" account ])
      >>= λ number. child (shown_error page.error) >>= λ error. some (record {
        kind = type;
        number = number;
        balance = balance;
        succeeded = page.success;
        error = error;
        amount_currency = currency page.account;
        maximum = maximum_of kind balance;
        choices = choices;
        can_submit = not page.is_submitting;
        button = button_of kind page.is_submitting;
      })

  pub render : {Jar : Type 0} → Kind → Page Jar → Option View
  unfolding render_form
  render kind page =
      if page.is_loading
      then some spinner
      else if truthy? page.error && not (truthy? page.account)
      then some not_found
      else render_form kind page >>= λ view. some (form view)
