-- ===== src/TransactionsApi/Filters.antt =====
-- frontend/src/lib/api/transactions.ts: the filters of a list of transactions, and the search
-- parameters that they become.
use mathlib.Core.List.{◌++◌}
use microsvc.Prelude.{
  ℕ, zero, suc, String, Option, none, some, nonempty, List, [], ◌∷◌, show, Number, num, is_nonzero,
  if◌then◌else◌,
}
use microsvc.Token.{Platform}
use microsvc.AccountsApi.{sorted_entries}

pub data TransactionType : Type 0 where
  deposit withdrawal transfer : TransactionType

pub data TransactionStatus : Type 0 where
  pending completed failed cancelled : TransactionStatus

pub data ExportFormat : Type 0 where
  csv pdf excel : ExportFormat

abbrev pub type_text : TransactionType → String
type_text deposit = "DEPOSIT"
type_text withdrawal = "WITHDRAWAL"
type_text transfer = "TRANSFER"

abbrev pub status_text : TransactionStatus → String
status_text pending = "PENDING"
status_text completed = "COMPLETED"
status_text failed = "FAILED"
status_text cancelled = "CANCELLED"

abbrev format_text : ExportFormat → String
format_text csv = "CSV"
format_text pdf = "PDF"
format_text excel = "EXCEL"

pub record TransactionFilters : Type 0 where
  pub account_id : Option ℕ
  pub type : Option TransactionType
  pub status : Option TransactionStatus
  pub start_date : Option String
  pub end_date : Option String
  pub min_amount : Option Number
  pub max_amount : Option Number
  pub description : Option String

-- `if (filters.key) params.append(key, …)`: zero and the empty text are passed over.
abbrev pub id_text : Option ℕ → Option String
id_text none = none
id_text (some zero) = none
id_text (some (suc n)) = some (show (suc n))

abbrev pub amount_text : Platform → Option Number → Option String
amount_text p none = none
amount_text p (some n) = if is_nonzero n then some (p.to_text (num n)) else none

abbrev pub kind_text : Option TransactionType → Option String
kind_text none = none
kind_text (some t) = some (type_text t)

abbrev pub state_text : Option TransactionStatus → Option String
state_text none = none
state_text (some s) = some (status_text s)

unfoldable pub appended : String → Option String → List (String × String) → List (String × String)
appended key none params = params
appended key (some v) params = params ++ (key, v) ∷ []

-- The filters that both a list and an export know, in the order in which they are appended.
common_params : TransactionFilters → List (String × String) → List (String × String)
unfolding appended
common_params f params = appended "endDate" (nonempty f.end_date) (
    appended "startDate" (nonempty f.start_date) (
      appended "status" (state_text f.status)
        (appended "type" (kind_text f.type) (appended "accountId" (id_text f.account_id) params))))

unfoldable pub filtered_params :
    Platform → TransactionFilters → (page size : Option ℕ) → Option String → List (String × String)
unfolding common_params
filtered_params p f page size sort = appended "description" (nonempty f.description) (
    appended "maxAmount" (amount_text p f.max_amount) (
      appended "minAmount" (amount_text p f.min_amount)
        (common_params f (sorted_entries page size sort))))

unfoldable pub export_params : ExportFormat → Option TransactionFilters → List (String × String)
unfolding common_params
export_params format none = ("format", format_text format) ∷ []
export_params format (some f) = common_params f (("format", format_text format) ∷ [])
