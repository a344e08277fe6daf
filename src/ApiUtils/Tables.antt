-- ===== src/ApiUtils/Tables.antt =====
-- frontend/src/lib/api/index.ts: the table of addresses, `API_ENDPOINTS`.
use microsvc.Prelude.{ℕ, String, ◌⧺◌, show}

pub data AuthEndpoint : Type 0 where
  login register logout refresh profile : AuthEndpoint

abbrev pub auth_address : AuthEndpoint → String
auth_address login = "/api/users/login"
auth_address register = "/api/users/register"
auth_address logout = "/api/users/logout"
auth_address refresh = "/api/users/refresh"
auth_address profile = "/api/users/profile"

pub data AccountEndpoint : Type 0 where
  base summary search : AccountEndpoint
  balance status transactions : ℕ → AccountEndpoint

abbrev pub account_address : AccountEndpoint → String
account_address base = "/api/accounts"
account_address summary = "/api/accounts/summary"
account_address (balance id) = "/api/accounts/" ⧺ show id ⧺ "/balance"
account_address (status id) = "/api/accounts/" ⧺ show id ⧺ "/status"
account_address (transactions id) = "/api/accounts/" ⧺ show id ⧺ "/transactions"
account_address search = "/api/accounts/search"

pub data TransactionEndpoint : Type 0 where
  base summary recent search export monthly : TransactionEndpoint
  cancel : ℕ → TransactionEndpoint

abbrev pub transaction_address : TransactionEndpoint → String
transaction_address base = "/api/transactions"
transaction_address summary = "/api/transactions/summary"
transaction_address recent = "/api/transactions/recent"
transaction_address search = "/api/transactions/search"
transaction_address (cancel id) = "/api/transactions/" ⧺ show id ⧺ "/cancel"
transaction_address export = "/api/transactions/export"
transaction_address monthly = "/api/transactions/reports/monthly"

pub data UserEndpoint : Type 0 where
  base profile password preferences verify_email verify_phone password_reset two_factor activity
        sessions avatar search check_username check_email :
      UserEndpoint

abbrev pub user_address : UserEndpoint → String
user_address base = "/api/users"
user_address profile = "/api/users/profile"
user_address password = "/api/users/password"
user_address preferences = "/api/users/preferences"
user_address verify_email = "/api/users/verify-email"
user_address verify_phone = "/api/users/verify-phone"
user_address password_reset = "/api/users/password-reset"
user_address two_factor = "/api/users/2fa"
user_address activity = "/api/users/activity"
user_address sessions = "/api/users/sessions"
user_address avatar = "/api/users/avatar"
user_address search = "/api/users/search"
user_address check_username = "/api/users/check-username"
user_address check_email = "/api/users/check-email"
