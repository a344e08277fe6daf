-- ===== src/TransactionsApi/Tests.antt =====
-- The theorems of the calls for transactions and accounts on a page of the samples.
use microsvc.Prelude.{Option, false, none, some, ◌≡◌, lookup, Number, dec, show}
use microsvc.TransactionsApi.{TransactionFilters, filtered_params}
use microsvc.TransactionsApi.Filters.{withdrawal}
use microsvc.TransactionsApi.Laws.{filtered_params-lookup}
use microsvc.Samples.{cookies, platform}

abbrev filters : TransactionFilters
filters = record {
  account_id = some 7;
  type = some withdrawal;
  status = none;
  start_date = some "2025-01-01";
  end_date = some "";
  min_amount = some (dec false 1050 2);
  max_amount = none;
  description = some "rent";
}

filtered_params-lookup_example :
    let params = filtered_params platform filters none (some 20) none in
    (lookup "accountId" params ≡ some "7")
    × (lookup "type" params ≡ some "WITHDRAWAL")
    × (lookup "status" params ≡ none)
    × (lookup "startDate" params ≡ some "2025-01-01")
    × (lookup "endDate" params ≡ none)
    × (lookup "minAmount" params ≡ some "[object]")
    × (lookup "maxAmount" params ≡ none)
    × (lookup "description" params ≡ some "rent")
    × (lookup "page" params ≡ some "0")
    × (lookup "size" params ≡ some "20")
    × (lookup "sort" params ≡ some "createdAt,desc")
unfolding show
filtered_params-lookup_example = filtered_params-lookup platform filters none (some 20) none

abbrev cents : Option Number
cents = some (dec false 1999 2)
