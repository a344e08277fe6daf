-- ===== src/AccountsApi.antt =====
-- frontend/src/lib/api/accounts.ts: the class `AccountsAPI`. Arguments with a default are `Option`;
-- what the callers hand over as an object is its JSON value.
pub mod Laws
use microsvc.Prelude.{
  ℕ, String, Option, none, some, or_else, List, [], ◌∷◌, ◌⧺◌, show, serialize, Json, str, obj,
  field, end,
}
use microsvc.Web.{Cookies, World, json}
use microsvc.Client.{ApiResponse}
use microsvc.Client

pub data AccountType : Type 0 where
  checking savings credit investment : AccountType

pub data AccountStatus : Type 0 where
  active inactive frozen closed : AccountStatus

abbrev type_text : AccountType → String
type_text checking = "CHECKING"
type_text savings = "SAVINGS"
type_text credit = "CREDIT"
type_text investment = "INVESTMENT"

abbrev pub status_text : AccountStatus → String
status_text active = "ACTIVE"
status_text inactive = "INACTIVE"
status_text frozen = "FROZEN"
status_text closed = "CLOSED"

-- `page.toString()` and `size.toString()`, with their defaults
abbrev pub page_entries : (page size : Option ℕ) → List (String × String)
page_entries page size = ("page", show (or_else page 0)) ∷ ("size", show (or_else size 10)) ∷ []

abbrev pub sorted_entries : (page size : Option ℕ) → Option String → List (String × String)
sorted_entries page size sort =
    ("page", show (or_else page 0))
    ∷ ("size", show (or_else size 10))
    ∷ ("sort", or_else sort "createdAt,desc")
    ∷ []

module _ {Jar : Type 0} ⦃C : Cookies Jar⦄ where
  pub get_accounts : World Jar → ApiResponse × World Jar
  get_accounts = Client.get "/api/accounts" []

  pub get_accounts_paginated :
      (page size : Option ℕ) → Option String → World Jar → ApiResponse × World Jar
  get_accounts_paginated page size sort =
      Client.get ("/api/accounts?" ⧺ serialize (sorted_entries page size sort)) []

  pub get_account : ℕ → World Jar → ApiResponse × World Jar
  get_account id = Client.get ("/api/accounts/" ⧺ show id) []

  pub create_account : Json → World Jar → ApiResponse × World Jar
  create_account account = Client.post "/api/accounts" (json account) []

  pub update_account : ℕ → Json → World Jar → ApiResponse × World Jar
  update_account id account = Client.put ("/api/accounts/" ⧺ show id) (json account)

  pub delete_account : ℕ → World Jar → ApiResponse × World Jar
  delete_account id = Client.delete ("/api/accounts/" ⧺ show id)

  pub get_account_summary : World Jar → ApiResponse × World Jar
  get_account_summary = Client.get "/api/accounts/summary" []

  pub get_account_balance : ℕ → World Jar → ApiResponse × World Jar
  get_account_balance id = Client.get ("/api/accounts/" ⧺ show id ⧺ "/balance") []

  pub update_account_status : ℕ → AccountStatus → World Jar → ApiResponse × World Jar
  update_account_status id status =
      Client.patch ("/api/accounts/" ⧺ show id ⧺ "/status")
        (json (obj (field "status" (str (status_text status)) end)))

  pub freeze_account : ℕ → World Jar → ApiResponse × World Jar
  unfolding update_account_status
  freeze_account id = update_account_status id frozen

  pub unfreeze_account : ℕ → World Jar → ApiResponse × World Jar
  unfolding update_account_status
  unfreeze_account id = update_account_status id active

  pub close_account : ℕ → World Jar → ApiResponse × World Jar
  unfolding update_account_status
  close_account id = update_account_status id closed

  pub get_accounts_by_type : AccountType → World Jar → ApiResponse × World Jar
  get_accounts_by_type type = Client.get ("/api/accounts?type=" ⧺ type_text type) []

  pub get_accounts_by_status : AccountStatus → World Jar → ApiResponse × World Jar
  get_accounts_by_status status = Client.get ("/api/accounts?status=" ⧺ status_text status) []

  pub search_accounts : String → (page size : Option ℕ) → World Jar → ApiResponse × World Jar
  search_accounts query page size =
      Client.get ("/api/accounts/search?" ⧺ serialize (("q", query) ∷ page_entries page size)) []
