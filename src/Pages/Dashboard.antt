-- ===== src/Pages/Dashboard.antt =====
-- frontend/src/app/dashboard/page.tsx: the two accounts of the demonstration and where its button
-- leads, and frontend/src/lib/demo.ts.
use microsvc.Prelude.{
  String, Bool, ◌&&◌, Option, none, some, Json, Items, nil, cons, get, if◌then◌else◌, ◌⧺◌, is_some,
}
use microsvc.Web.{Cookies, World, redirect}
use microsvc.Forms.{loaded}
use microsvc.AccountsApi
use microsvc.Pages.{Display, ◌>>=◌, as_array, has}
use microsvc.Pages.Accounts.{written}

pub record Page (Jar : Type 0) : Type 0 where
  pub world : World Jar
  pub accounts : Json

-- `fetchAccounts`
pub fetch_accounts : {Jar : Type 0} ⦃C : Cookies Jar⦄ → Page Jar → Page Jar
fetch_accounts page =
    let (r, w) = AccountsApi.get_accounts page.world in
    elim (loaded r) [
      | none ↦ record page { world = w }
      | some accounts ↦ record { world = w; accounts = accounts }
    ]

-- `accounts.find((account) => account.accountType === type)`; the outer `none` is an exception.
unfoldable pub find_account : String → Items → Option (Option Json)
find_account type nil = some none
find_account type (cons v accounts) =
    let later = find_account type accounts in
    has "accountType" type v >>= λ b. if b then some (some v) else later

-- `demoTransfer.queryValue`
abbrev pub query_value : String
query_value = "transfer-review"

-- The page's line on the accounts, and whether its button can be pressed.
pub record View : Type 0 where
  pub line : String
  pub can_review : Bool

module _ {Jar : Type 0} where
  pub render : Page Jar → Option View
  render page = as_array page.accounts >>= λ accounts.
      find_account "CHECKING" accounts >>= λ checking.
      find_account "SAVINGS" accounts >>= λ savings. some (record {
        line =
            if is_some checking && is_some savings
            then "Checking and savings accounts are ready."
            else "Waiting for seeded checking and savings accounts.";
        can_review = is_some checking;
      })

  -- `openTransferReview` of a page that has been rendered.
  pub open_transfer_review : {Value : Type 0} → Display Value → Page Jar → Option (World Jar)
  open_transfer_review d page = as_array page.accounts >>= λ accounts.
      find_account "CHECKING" accounts >>= λ checking. some (
        redirect
          (elim checking [
            | none ↦ "/accounts"
            | some account ↦
                "/accounts/" ⧺ written d (get "id" account) ⧺ "/transfer?demo=" ⧺ query_value
          ])
          page.world)
