-- ===== src/Logging.antt =====
-- frontend/src/lib/logger.ts and frontend/src/middleware.ts: the lines of the log as JSON objects,
-- and the requests that the middleware writes one for. The time and what does not fit JSON, such as
-- a property that is `undefined`, are left to the parameters.
pub mod Laws
use microsvc.Prelude.{
  ℕ, ◌==◌, ◌&&◌, String, Bool, true, false, Option, none, some, nonempty, List, [], ◌∷◌, lookup,
  codes, Json, bool, str, int, obj, Fields, end, field, if◌then◌else◌, ◌⧺◌,
}
use microsvc.Pages.Transactions.{assign}

-- `{ …fields, …metadata }`
unfoldable pub spread : Fields → Fields → Fields
spread fields end = fields
spread fields (field k v metadata) = spread (assign k v fields) metadata

-- A property that is left out of the line where it is `undefined`.
abbrev pub optional : String → Option Json → Fields → Fields
optional key none rest = rest
optional key (some v) rest = field key v rest

-- `createLogEntry`, at the time given.
pub create_log_entry : (timestamp level message : String) → Fields → Fields
create_log_entry timestamp level message metadata =
    spread
      (field "timestamp" (str timestamp) (
        field "level" (str level)
          (field "service" (str "frontend") (field "message" (str message) end))))
      metadata

-- What `JSON.stringify` keeps of an error.
pub record ErrorText : Type 0 where
  pub message : String
  pub stack : Option Json

abbrev text? : Option String → Option Json
text? none = none
text? (some s) = some (str s)

module _ (timestamp : String) where
  pub log_api_request : (method url : String) → (user_agent ip : Option String) → Fields
  unfolding create_log_entry
  log_api_request method url user_agent ip = create_log_entry timestamp "info" "API Request" (
      field "type" (str "api_request") (
        field "method" (str method) (
          field "url" (str url)
            (optional "userAgent" (text? user_agent) (optional "ip" (text? ip) end)))))

  pub log_api_response :
      (method url : String) → (status_code : ℕ) → (duration : Option Json) → Fields
  unfolding create_log_entry
  log_api_response method url status_code duration =
      create_log_entry timestamp "info" "API Response" (
        field "type" (str "api_response") (
          field "method" (str method) (
            field "url" (str url)
              (field "statusCode" (int status_code) (optional "duration" duration end)))))

  pub log_error : ErrorText → (context : Option Json) → Fields
  unfolding create_log_entry
  log_error error context = create_log_entry timestamp "error" "Application Error" (
      field "type" (str "error") (
        field "message" (str error.message)
          (optional "stack" error.stack (optional "context" context end))))

  pub log_transaction :
      (type : String) → (account_id : ℕ) → (amount : Json) → (success : Bool) → Fields
  unfolding create_log_entry
  log_transaction type account_id amount success =
      create_log_entry timestamp "info" "Transaction Event" (
        field "type" (str "transaction") (
          field "transactionType" (str type) (
            field "accountId" (int account_id)
              (field "amount" amount (field "success" (bool success) end)))))

  pub log_info : (message : String) → (metadata : Fields) → Fields
  unfolding create_log_entry
  log_info message metadata = create_log_entry timestamp "info" message metadata

  pub log_warn : (message : String) → (metadata : Fields) → Fields
  unfolding create_log_entry
  log_warn message metadata = create_log_entry timestamp "warn" message metadata

-- `text.startsWith(prefix)`, on code points.
abbrev pub begins : List ℕ → List ℕ → Bool
begins [] text = true
begins (c ∷ prefix) [] = false
begins (c ∷ prefix) (d ∷ text) = c == d && begins prefix text

-- A request as the middleware sees it.
pub record Incoming : Type 0 where
  pub method : String
  pub pathname : String
  pub search : String
  pub headers : List (String × String)

-- `middleware`: the line that is written, if any; the request goes on in either case.
pub middleware : (timestamp : String) → Incoming → Option Fields
unfolding log_api_request
middleware timestamp request =
    if begins (codes "/api/") (codes request.pathname)
    then some (
        log_api_request timestamp request.method (request.pathname ⧺ request.search)
          (nonempty (lookup "user-agent" request.headers))
          (nonempty (lookup "x-forwarded-for" request.headers)))
    else none
