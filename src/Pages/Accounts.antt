-- ===== src/Pages/Accounts.antt =====
-- frontend/src/app/accounts/page.tsx: the list of the accounts and its summary.
pub mod Laws
mod Tests
use microsvc.Prelude.{
  ℕ, String, Bool, true, false, ◌||◌, Option, none, some, List, [], Json, null, str, arr, Items,
  nil, cons, get, truthy?, or_default, if◌then◌else◌, ◌⧺◌,
}
use microsvc.Web.{Cookies, World}
use microsvc.Token.{Platform}
use microsvc.Forms.{loaded}
use microsvc.AccountsApi
use microsvc.Pages.{
  Display, ◌>>=◌, child, as_text, not_null, mapped, size, count, sum, capital, measured,
  no_elements, elements, other_elements, unmeasured,
}
use microsvc.Pages.Transactions.{shown_error}

pub record Page (Jar : Type 0) : Type 0 where
  pub world : World Jar
  pub accounts : Json
  pub is_loading : Bool
  pub error : Option Json

abbrev pub opened : {Jar : Type 0} → World Jar → Page Jar
opened w = record { world = w; accounts = arr nil; is_loading = true; error = none }

-- `fetchAccounts`; the call reports its errors and throws nothing.
pub fetch_accounts : {Jar : Type 0} ⦃C : Cookies Jar⦄ → Page Jar → Page Jar
fetch_accounts page =
    let (r, w) = AccountsApi.get_accounts page.world in
    let done = record page { world = w; is_loading = false } in
    elim (loaded r) [
      | none ↦ record done { error = some (or_default r.message (str "Failed to load accounts")) }
      | some accounts ↦ record done { accounts = accounts }
    ]

-- What is shown of one account.
pub record Row : Type 0 where
  pub key : Option Json
  pub address : String
  pub kind : String
  pub number : Option Json
  pub balance : String
  pub status : Option Json
  pub created : String
  pub updated : String

pub record Summary : Type 0 where
  pub total : ℕ
  pub balance : String
  pub active : ℕ

-- `notice` is the text where there is no account.
pub record View : Type 0 where
  pub spinner : Bool
  pub error : Option Json
  pub notice : Option String
  pub rows : List Row
  pub summary : Option Summary

-- What an interpolation writes of a property that may be missing.
abbrev pub written : {Value : Type 0} → Display Value → Option Json → String
written d none = "undefined"
written d (some v) = d.text v

module _ {Value : Type 0} (d : Display Value) where
  -- `formatCurrency`, which falls back to dollars on a code that is none.
  pub format_currency : Option Json → Value → Option String
  format_currency currency amount = elim (d.money (or_default currency (str "USD")) amount) [
    | some text ↦ some text
    | none ↦ d.money (str "USD") amount
  ]

  pub row : Json → Option Row
  unfolding format_currency
  row v = not_null v >>= λ account. as_text (get "accountType" account) >>= λ type.
      format_currency (some (or_default (get "currency" account) (str "USD")))
        (d.value (get "balance" account))
      >>= λ balance. child (get "accountNumber" account) >>= λ number.
          child (some (or_default (get "status" account) (str "ACTIVE"))) >>= λ status.
          some (record {
            key = get "id" account;
            address = "/accounts/" ⧺ written d (get "id" account);
            kind = capital d type ⧺ " Account";
            number = number;
            balance = balance;
            status = status;
            created = d.day (get "createdAt" account);
            updated = d.day (get "updatedAt" account);
          })

  pub summary : Items → Option Summary
  unfolding format_currency
  summary accounts = sum d "balance" d.zero_value accounts >>= λ total.
      format_currency (some (str "USD")) total >>= λ balance.
      count "status" "ACTIVE" accounts >>= λ active.
      some (record { total = size accounts; balance = balance; active = active })

  abbrev pub listed : Items → Option View
  listed accounts = mapped (row) accounts >>= λ rows. summary accounts >>= λ s.
      some (record { spinner = false; error = none; notice = none; rows = rows; summary = some s })

  abbrev pub without_rows : (spinner : Bool) → Option Json → Option String → Option View
  without_rows spinner error notice =
      some (record { spinner = spinner; error = error; notice = notice; rows = []; summary = none })

  pub render : {Jar : Type 0} → Platform → Page Jar → Option View
  unfolding measured row summary
  render p page =
      if page.is_loading || truthy? page.error
      then (child (shown_error page.error) >>= λ error. without_rows page.is_loading error none)
      else elim (measured p page.accounts) [
        | no_elements ↦ without_rows false none (some "Create your first account to get started")
        | elements accounts ↦ listed accounts
        | other_elements ↦ none
        | unmeasured ↦ without_rows false none none
      ]
