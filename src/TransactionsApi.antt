-- ===== src/TransactionsApi.antt =====
-- frontend/src/lib/api/transactions.ts: the class `TransactionsAPI`.
mod Filters
pub mod Laws
mod Tests
pub use Filters.{
  TransactionType, TransactionStatus, type_text, status_text, TransactionFilters, filtered_params,
  ExportFormat, export_params,
}
use microsvc.Prelude.{
  ℕ, String, Option, none, some, or_else, List, [], ◌∷◌, ◌⧺◌, show, serialize, Json, Number, null,
  num, int, str, obj, field, end,
}
use microsvc.Web.{Cookies, World, empty, json, log, transaction, console}
use microsvc.Token.{Platform}
use microsvc.Session.{token_text}
use microsvc.Client.{ApiResponse}
use microsvc.Client
use microsvc.AccountsApi.{page_entries, sorted_entries}

abbrev newest_first : List (String × String)
newest_first = ("sort", "createdAt,desc") ∷ []

abbrev paged_newest : (page size : Option ℕ) → List (String × String)
paged_newest page size =
    ("page", show (or_else page 0)) ∷ ("size", show (or_else size 10)) ∷ newest_first

-- An amount in a body; `none` is `NaN`, which JSON writes as `null`.
abbrev pub amount_json : Option Number → Json
amount_json none = null
amount_json (some n) = num n

abbrev amount_text : Platform → Option Number → String
amount_text p none = "NaN"
amount_text p (some n) = p.to_text (num n)

abbrev currency_text : Platform → Option Json → String
currency_text p currency = token_text p (some (or_else currency (str "USD")))

-- The body of a deposit or a withdrawal.
abbrev pub movement : ℕ → Option Number → String → Option Json → Json
movement id amount description currency = obj (
    field "accountId" (int id) (
      field "amount" (amount_json amount) (
        field "description" (str description)
          (field "currency" (or_else currency (str "USD")) end))))

abbrev pub transfer_data : (source target : ℕ) → Option Number → String → Option Json → Json
transfer_data source target amount description currency = obj (
    field "fromAccountId" (int source) (
      field "toAccountId" (int target) (
        field "amount" (amount_json amount) (
          field "description" (str description)
            (field "currency" (or_else currency (str "USD")) end)))))

module _ {Jar : Type 0} ⦃C : Cookies Jar⦄ where
  -- `logTransaction`, after the call has come back.
  abbrev pub audited :
      String → ℕ → Option Number → ApiResponse × World Jar → ApiResponse × World Jar
  audited kind id amount (r, w) = (r, log (transaction kind id (amount_json amount) r.success) w)

  pub get_transactions : World Jar → ApiResponse × World Jar
  get_transactions = Client.get "/api/transactions" []

  pub get_transactions_paginated :
      (page size : Option ℕ) → Option String → World Jar → ApiResponse × World Jar
  get_transactions_paginated page size sort =
      Client.get ("/api/transactions?" ⧺ serialize (sorted_entries page size sort)) []

  pub get_filtered_transactions :
      Platform
      → TransactionFilters
      → (page size : Option ℕ) → Option String
      → World Jar
      → ApiResponse × World Jar
  get_filtered_transactions p filters page size sort =
      Client.get ("/api/transactions?" ⧺ serialize (filtered_params p filters page size sort)) []

  pub get_transaction : ℕ → World Jar → ApiResponse × World Jar
  get_transaction id = Client.get ("/api/transactions/" ⧺ show id) []

  -- The page, the size and the order are accepted and not used.
  pub get_account_transactions :
      ℕ → (page size : Option ℕ) → Option String → World Jar → ApiResponse × World Jar
  get_account_transactions id page size sort =
      Client.get ("/api/transactions?" ⧺ serialize (("accountId", show id) ∷ [])) []

  pub create_transaction : Json → World Jar → ApiResponse × World Jar
  create_transaction data' = Client.post "/api/transactions" (json data') []

  pub create_deposit :
      Platform → ℕ → Option Number → String → Option Json → World Jar → ApiResponse × World Jar
  create_deposit p id amount description currency w =
      let line =
        "[TRANSACTION] Creating deposit: Account "
        ⧺ show id
        ⧺ ", Amount "
        ⧺ amount_text p amount
        ⧺ " "
        ⧺ currency_text p currency in
      audited "deposit" id amount (
        Client.post "/api/transactions/deposit" (json (movement id amount description currency)) []
          (log (console line) w))

  pub create_withdrawal :
      Platform → ℕ → Option Number → String → Option Json → World Jar → ApiResponse × World Jar
  create_withdrawal p id amount description currency w =
      let line =
        "[TRANSACTION] Creating withdrawal: Account "
        ⧺ show id
        ⧺ ", Amount "
        ⧺ amount_text p amount
        ⧺ " "
        ⧺ currency_text p currency in
      audited "withdrawal" id amount (
        Client.post "/api/transactions/withdraw" (json (movement id amount description currency)) []
          (log (console line) w))

  pub create_transfer :
      Platform
      → (source target : ℕ) → Option Number
      → String
      → Option Json
      → World Jar
      → ApiResponse × World Jar
  create_transfer p source target amount description currency w =
      let line =
        "[TRANSACTION] Creating transfer: From Account "
        ⧺ show source
        ⧺ " to Account "
        ⧺ show target
        ⧺ ", Amount "
        ⧺ amount_text p amount
        ⧺ " "
        ⧺ currency_text p currency in
      audited "transfer" source amount (
        Client.post "/api/transactions/transfer"
          (json (transfer_data source target amount description currency)) []
          (log (console line) w))

  pub cancel_transaction : ℕ → World Jar → ApiResponse × World Jar
  cancel_transaction id = Client.patch ("/api/transactions/" ⧺ show id ⧺ "/cancel") empty

  pub get_transaction_summary : World Jar → ApiResponse × World Jar
  get_transaction_summary = Client.get "/api/transactions/summary" []

  pub get_account_transaction_summary : ℕ → World Jar → ApiResponse × World Jar
  get_account_transaction_summary id =
      Client.get ("/api/accounts/" ⧺ show id ⧺ "/transactions/summary") []

  pub get_transactions_by_type :
      TransactionType → (page size : Option ℕ) → World Jar → ApiResponse × World Jar
  get_transactions_by_type type page size =
      Client.get
        ("/api/transactions?" ⧺ serialize (("type", type_text type) ∷ paged_newest page size)) []

  pub get_transactions_by_status :
      TransactionStatus → (page size : Option ℕ) → World Jar → ApiResponse × World Jar
  get_transactions_by_status status page size =
      Client.get
        ("/api/transactions?" ⧺ serialize (("status", status_text status) ∷ paged_newest page size))
        []

  pub get_pending_transactions : World Jar → ApiResponse × World Jar
  get_pending_transactions = Client.get "/api/transactions?status=PENDING" []

  pub get_recent_transactions : Option ℕ → World Jar → ApiResponse × World Jar
  get_recent_transactions limit =
      Client.get ("/api/transactions/recent?limit=" ⧺ show (or_else limit 10)) []

  pub search_transactions : String → (page size : Option ℕ) → World Jar → ApiResponse × World Jar
  search_transactions query page size =
      Client.get ("/api/transactions/search?" ⧺ serialize (("q", query) ∷ page_entries page size))
        []

  pub get_transactions_by_date_range :
      (start_date end_date : String) → (page size : Option ℕ) → World Jar → ApiResponse × World Jar
  get_transactions_by_date_range start_date end_date page size =
      Client.get
        ("/api/transactions?"
          ⧺ serialize (("startDate", start_date) ∷ ("endDate", end_date) ∷ paged_newest page size))
        []

  pub get_monthly_transaction_report : (year month : ℕ) → World Jar → ApiResponse × World Jar
  get_monthly_transaction_report year month =
      Client.get ("/api/transactions/reports/monthly?year=" ⧺ show year ⧺ "&month=" ⧺ show month) []

  pub export_transactions :
      ExportFormat → Option TransactionFilters → World Jar → ApiResponse × World Jar
  export_transactions format filters =
      Client.get ("/api/transactions/export?" ⧺ serialize (export_params format filters)) []
