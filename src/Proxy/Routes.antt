-- ===== src/Proxy/Routes.antt =====
-- The routes that hand a request on to the gateway, as one type, with a table of what each of them
-- hands on.
use microsvc.Prelude.{String, Bool, true, false, Option, none, some, ◌⧺◌}
use microsvc.Proxy.{Server, NextRequest, NextResponse, Handler}
use microsvc.Proxy.Accounts
use microsvc.Proxy.Transactions
use microsvc.Proxy.Users

pub data Route : Type 0 where
  list_accounts create_account search_accounts account_summary list_transactions post_transaction
        create_transaction deposit withdraw transfer recent_transactions search_transactions
        transaction_summary login register profile check_username check_email :
      Route
  get_account update_account delete_account account_balance export_statement update_account_status
        account_transactions account_transaction_summary get_transaction cancel_transaction :
      String → Route

unfoldable pub handle : Server → Route → NextRequest → Handler NextResponse
unfolding Accounts.list_accounts Accounts.create_account Accounts.search_accounts
    Accounts.account_summary Accounts.get_account Accounts.update_account Accounts.delete_account
    Accounts.account_balance Accounts.export_statement Accounts.update_account_status
    Accounts.account_transactions Accounts.account_transaction_summary
    Transactions.list_transactions Transactions.post_transaction Transactions.create_transaction
    Transactions.deposit Transactions.withdraw Transactions.transfer
    Transactions.recent_transactions Transactions.search_transactions
    Transactions.transaction_summary Transactions.get_transaction Transactions.cancel_transaction
    Users.login Users.register Users.profile Users.check_username Users.check_email
handle sv list_accounts request = Accounts.list_accounts sv request
handle sv create_account request = Accounts.create_account sv request
handle sv search_accounts request = Accounts.search_accounts sv request
handle sv account_summary request = Accounts.account_summary sv request
handle sv (get_account id) request = Accounts.get_account sv request id
handle sv (update_account id) request = Accounts.update_account sv request id
handle sv (delete_account id) request = Accounts.delete_account sv request id
handle sv (account_balance id) request = Accounts.account_balance sv request id
handle sv (export_statement id) request = Accounts.export_statement sv request id
handle sv (update_account_status id) request = Accounts.update_account_status sv request id
handle sv (account_transactions id) request = Accounts.account_transactions sv request id
handle sv (account_transaction_summary id) request =
    Accounts.account_transaction_summary sv request id
handle sv list_transactions request = Transactions.list_transactions sv request
handle sv post_transaction request = Transactions.post_transaction sv request
handle sv create_transaction request = Transactions.create_transaction sv request
handle sv deposit request = Transactions.deposit sv request
handle sv withdraw request = Transactions.withdraw sv request
handle sv transfer request = Transactions.transfer sv request
handle sv recent_transactions request = Transactions.recent_transactions sv request
handle sv search_transactions request = Transactions.search_transactions sv request
handle sv transaction_summary request = Transactions.transaction_summary sv request
handle sv (get_transaction id) request = Transactions.get_transaction sv request id
handle sv (cancel_transaction id) request = Transactions.cancel_transaction sv request id
handle sv login request = Users.login sv request
handle sv register request = Users.register sv request
handle sv profile request = Users.profile sv request
handle sv check_username request = Users.check_username sv request
handle sv check_email request = Users.check_email sv request

-- A search parameter without which a route answers 400, with this text.
pub record Needed : Type 0 where
  pub name : String
  pub text : String

-- What a route hands on: its method and its path at the gateway (with a `?` where search parameters
-- follow), which of the search parameters, the body, the authorization and a trace of its own go
-- along, and the search parameter that ends its address, where it needs one.
pub record Spec : Type 0 where
  pub method : String
  pub path : String
  pub with_search : Bool
  pub with_body : Bool
  pub with_auth : Bool
  pub with_trace : Bool
  pub needed : Option Needed

abbrev spec : String → String → (search body auth trace : Bool) → Spec
spec method path search body auth trace = record {
  method = method;
  path = path;
  with_search = search;
  with_body = body;
  with_auth = auth;
  with_trace = trace;
  needed = none;
}

abbrev check : String → String → (text : String) → Spec
check path name text = record (spec "GET" path false false false false) {
  needed = some (record { name = name; text = text });
}

abbrev pub spec_of : Route → Spec
spec_of list_accounts = spec "GET" "/api/accounts?" true false true true
spec_of create_account = spec "POST" "/api/accounts" false true true true
spec_of search_accounts = spec "GET" "/api/accounts/search?" true false true false
spec_of account_summary = spec "GET" "/api/accounts/summary" false false true false
spec_of (get_account id) = spec "GET" ("/api/accounts/" ⧺ id) false false true false
spec_of (update_account id) = spec "PUT" ("/api/accounts/" ⧺ id) false true true false
spec_of (delete_account id) = spec "DELETE" ("/api/accounts/" ⧺ id) false false true false
spec_of (account_balance id) =
    spec "GET" ("/api/accounts/" ⧺ id ⧺ "/balance") false false true false
spec_of (export_statement id) =
    spec "POST" ("/api/accounts/" ⧺ id ⧺ "/export-statement") false false true false
spec_of (update_account_status id) =
    spec "PATCH" ("/api/accounts/" ⧺ id ⧺ "/status") false true true false
spec_of (account_transactions id) =
    spec "GET" ("/api/accounts/" ⧺ id ⧺ "/transactions?") true false true false
spec_of (account_transaction_summary id) =
    spec "GET" ("/api/accounts/" ⧺ id ⧺ "/transactions/summary") false false true false
spec_of list_transactions = spec "GET" "/api/transactions?" true false true false
spec_of post_transaction = spec "POST" "/api/transactions/create" false true true false
spec_of create_transaction = spec "POST" "/api/transactions/create" false true true false
spec_of deposit = spec "POST" "/api/transactions/deposit" false true true false
spec_of withdraw = spec "POST" "/api/transactions/withdraw" false true true false
spec_of transfer = spec "POST" "/api/transactions/transfer" false true true false
spec_of recent_transactions = spec "GET" "/api/transactions/recent?" true false true false
spec_of search_transactions = spec "GET" "/api/transactions/search?" true false true false
spec_of transaction_summary = spec "GET" "/api/transactions/summary" false false true false
spec_of (get_transaction id) = spec "GET" ("/api/transactions/" ⧺ id) false false true false
spec_of (cancel_transaction id) =
    spec "PATCH" ("/api/transactions/" ⧺ id ⧺ "/cancel") false false true false
spec_of login = spec "POST" "/api/users/login" false true false true
spec_of register = spec "POST" "/api/users/register" false true false false
spec_of profile = spec "GET" "/api/users/profile" false false true false
spec_of check_username =
    check "/api/users/check-username?username=" "username" "Username parameter is required"
spec_of check_email = check "/api/users/check-email?email=" "email" "Email parameter is required"
