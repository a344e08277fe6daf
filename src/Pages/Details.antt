-- ===== src/Pages/Details.antt =====
-- frontend/src/app/accounts/[id]/page.tsx: one account, and the latest of its transactions.
pub mod Laws
mod Tests
use microsvc.Prelude.{
  ℕ, zero, suc, ◌-◌, ltb, String, Bool, true, false, ◌||◌, not, is_nonempty, Option, none, some,
  List, [], Json, null, str, arr, Items, nil, cons, get, truthy?, or_default, if◌then◌else◌, ◌⧺◌,
}
use microsvc.Web.{Cookies, World}
use microsvc.Token.{Platform}
use microsvc.Forms.{loaded, load_error}
use microsvc.AccountsApi
use microsvc.TransactionsApi
use microsvc.Pages.{
  Display, Color, ◌>>=◌, child, is_child, is_text, as_text, not_null, mapped, size, capital,
  color_of, sign_of, measured, no_elements, elements, other_elements, unmeasured,
}
use microsvc.Pages.Transactions.{Icon, deposit_icon, withdrawal_icon, transfer_icon}
use microsvc.Pages.Accounts.{written}

-- `account` is the account that was loaded.
pub record Page (Jar : Type 0) : Type 0 where
  pub world : World Jar
  pub account_id : String
  pub account : Option Json
  pub transactions : Json
  pub is_loading : Bool
  pub error : Option Json
  pub transactions_loading : Bool

abbrev pub opened : {Jar : Type 0} → String → World Jar → Page Jar
opened id w = record {
  world = w;
  account_id = id;
  account = none;
  transactions = arr nil;
  is_loading = true;
  error = none;
  transactions_loading = true;
}

module _ {Value : Type 0} (d : Display Value) {Jar : Type 0} ⦃C : Cookies Jar⦄ where
  -- `fetchAccountDetails`
  pub fetch_account_details : Page Jar → Page Jar
  fetch_account_details page =
      let (r, w) = AccountsApi.get_account (d.parse_int page.account_id) page.world in
      let done = record page { world = w; is_loading = false; error = none } in
      elim (loaded r) [
        | some account ↦ record done { account = some account }
        | none ↦ record done { error = some (load_error r) }
      ]

  -- `fetchAccountTransactions`: a failure leaves the list as it is.
  pub fetch_account_transactions : Page Jar → Page Jar
  fetch_account_transactions page =
      let (r, w) =
        TransactionsApi.get_account_transactions (d.parse_int page.account_id) (some 0) (some 20)
          none page.world in
      let done = record page { world = w; transactions_loading = false } in
      elim (loaded r) [
        | some transactions ↦ record done { transactions = transactions }
        | none ↦ done
      ]

  -- The effect of the page: both requests, the account's first, where the address has an identity.
  pub load : Page Jar → Page Jar
  unfolding fetch_account_details fetch_account_transactions
  load page =
      if is_nonempty page.account_id
      then fetch_account_transactions (fetch_account_details page)
      else page

-- `getTransactionIcon`
abbrev pub icon_of : Option Json → Option Icon
icon_of type =
    if is_text "DEPOSIT" type
    then some deposit_icon
    else if is_text "WITHDRAWAL" type
    then some withdrawal_icon
    else if is_text "TRANSFER" type
    then some transfer_icon
    else none

-- `getStatusBadge`
pub badge_of : Option Json → String
badge_of status =
    if is_text "COMPLETED" status
    then "Completed"
    else if is_text "PENDING" status
    then "Pending"
    else if is_text "FAILED" status
    then "Failed"
    else "Unknown"

pub record Row : Type 0 where
  pub key : Option Json
  pub icon : Option Icon
  pub description : Option Json
  pub badge : String
  pub kind : String
  pub created : String
  pub color : Color
  pub sign : String
  pub amount : String

-- The lower half of the page. `more` is how many transactions are not shown, where there are any.
pub data Recent : Type 0 where
  waiting : Recent
  no_transactions : Recent
  some_transactions : List Row → (more : Option ℕ) → Recent

-- The upper half, with the addresses of its buttons.
pub record Overview : Type 0 where
  pub kind : String
  pub number : Option Json
  pub balance : String
  pub status : Option Json
  pub is_active : Bool
  pub created : String
  pub updated : String
  pub deposit_address : String
  pub withdraw_address : String
  pub transfer_address : String
  pub all_address : String

pub data View : Type 0 where
  spinner : View
  failed : Json → View
  shown : Overview → Recent → View

-- `items.slice(0, n)`
unfoldable pub slice : ℕ → Items → Items
slice zero items = nil
slice (suc n) nil = nil
slice (suc n) (cons v items) = cons v (slice n items)

module _ {Value : Type 0} (d : Display Value) where
  -- `formatCurrency`
  abbrev pub format_currency : Option Json → Value → Option String
  format_currency currency = d.money (or_default currency (str "USD"))

  pub row : Json → Option Row
  unfolding badge_of
  row v = not_null v >>= λ t. as_text (get "type" t) >>= λ type.
      format_currency none (d.value (get "amount" t)) >>= λ amount.
      child (get "description" t) >>= λ description. some (record {
        key = get "id" t;
        icon = icon_of (get "type" t);
        description = description;
        badge = badge_of (get "status" t);
        kind = d.lower type;
        created = d.moment (get "createdAt" t);
        color = color_of (get "type" t);
        sign = sign_of (get "type" t);
        amount = amount;
      })

  -- `transactions.length > 5 && …`
  abbrev pub more_of : ℕ → Option ℕ
  more_of n = if ltb 5 n then some (n - 5) else none

  pub recent : Platform → (is_loading : Bool) → Json → Option Recent
  unfolding measured row
  recent p true transactions = some waiting
  recent p false transactions = elim (measured p transactions) [
    | no_elements ↦ some no_transactions
    | elements ts ↦
        mapped row (slice 5 ts) >>= λ rows. some (some_transactions rows (more_of (size ts)))
    | other_elements ↦ none
    | unmeasured ↦ none
  ]

  pub overview : Json → Option Overview
  overview account =
      let address = "/accounts/" ⧺ written d (get "id" account) in
      as_text (get "accountType" account) >>= λ type.
      format_currency (get "currency" account) (d.value (get "balance" account)) >>= λ balance.
      child (get "accountNumber" account) >>= λ number. child (get "status" account) >>= λ status.
      some (record {
        kind = capital d type;
        number = number;
        balance = balance;
        status = status;
        is_active = is_text "ACTIVE" (get "status" account);
        created = d.moment (get "createdAt" account);
        updated = d.moment (get "updatedAt" account);
        deposit_address = address ⧺ "/deposit";
        withdraw_address = address ⧺ "/withdraw";
        transfer_address = address ⧺ "/transfer";
        all_address = "/transactions?accountId=" ⧺ written d (get "id" account);
      })

  -- `{error || 'Account not found'}`
  abbrev pub failure : Option Json → Option View
  failure error =
      let text = or_default error (str "Account not found") in
      if is_child text then some (failed text) else none

  pub render : {Jar : Type 0} → Platform → Page Jar → Option View
  unfolding recent overview
  render p page =
      if page.is_loading
      then some spinner
      else if truthy? page.error || not (truthy? page.account)
      then failure page.error
      else elim page.account [
        | none ↦ failure page.error
        | some account ↦ overview account >>= λ o.
            recent p page.transactions_loading page.transactions >>= λ r. some (shown o r)
      ]
