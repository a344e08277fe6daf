-- ===== src/Simulation/Client.antt =====
-- simulation-client/src/client/ApiClient.js: the class `ApiClient`. The interceptors only write log
-- lines, which are left out.
pub mod Retry
pub mod Endpoints
pub mod Refused
use mathlib.Core.List.{◌++◌}
use microsvc.Prelude.{
  ℕ, zero, suc, ◌+◌, ◌*◌, ◌^◌, ◌&&◌, String, Bool, true, false, Option, none, some, List, [], ◌∷◌,
  ◌||◌, leb, ◌==◌, ◌⧺◌, Json, null, bool, num, str, arr, obj, Items, nil, cons, Fields, end, field,
  find, get, truthy, truthy?, nonempty, if◌then◌else◌, Number, dec, str_eq, or_else,
}
use microsvc.Web.{Axios, Response, Error}
use microsvc.Token.{Platform}
use microsvc.Session.{token_text}
use microsvc.Simulation.Numbers.{Numbers}
use microsvc.Simulation.Settings.{Settings}
use microsvc.Simulation.Actions.{
  World, Request, Action, Outcome, returned, thrown, request, wait, throw, pure, ◌>>=◌,
}

-- What the constructor keeps of the settings.
pub record ApiClient : Type 0 where
  pub client : Axios
  pub max_retries : ℕ
  pub retry_delay : ℕ
  pub notification_service_url : String

abbrev user_agent : String × String
user_agent = ("User-Agent", "Banking-Simulation-Client/1.0.0")

pub new_client : {F : Type 0} → Settings F → ApiClient
new_client s = record {
  client = record {
    base_url = s.base_url;
    timeout = s.timeout;
    headers = ("Content-Type", "application/json") ∷ user_agent ∷ [];
    common = [];
  };
  max_retries = s.simulation.max_retries;
  retry_delay = s.simulation.retry_delay_ms;
  notification_service_url = s.notification_service_url;
}

-- `isRetryableError`
unfoldable pub is_retryable_error : Error → Bool
is_retryable_error e = elim e.response [
  | none ↦ true
  | some r ↦ leb 500 r.status || r.status == 429
]

-- What reading or calling a property that is not there throws.
abbrev pub type_error : Error
type_error = record { message = "TypeError"; code = none; response = none; config = none }

abbrev bool_same : Bool → Bool → Bool
bool_same true b = b
bool_same false true = false
bool_same false false = true

-- `a === b` on numbers
abbrev number_same : Number → Number → Bool
number_same (dec sign d p) (dec sign' d' p') =
    (d == 0 && d' == 0) || (bool_same sign sign' && d * 10 ^ p' == d' * 10 ^ p)

-- `a === b`; an object or an array is never the same as one that was parsed apart from it.
abbrev pub same : Json → Json → Bool
same null null = true
same (bool a) (bool b) = bool_same a b
same (num a) (num b) = number_same a b
same (str a) (str b) = str_eq a b
same _ _ = false

-- `txns.find(t => t.id === transactionId) || null`; an element that is `null` has no `id` to read.
abbrev found : Json → Items → Outcome Json
found id nil = returned null
found id (cons null ts) = thrown type_error
found id (cons t ts) =
    let rest = found id ts in
    elim (get "id" t) [
      | none ↦ rest
      | some id' ↦ if same id' id then returned (if truthy t then t else null) else rest
    ]

-- What `getTransaction` makes of the list.
abbrev pub picked : Json → Json → Outcome Json
picked id (arr ts) = found id ts
picked id v = elim (get "content" v) [
  | none ↦ returned null
  | some (arr ts) ↦ found id ts
  | some w ↦ if truthy w then thrown type_error else returned null
]

-- `{ currency: 'USD', ...transactionData }`
abbrev without_currency : Fields → Fields
without_currency end = end
without_currency (field k v rest) =
    let others = without_currency rest in if str_eq k "currency" then others else field k v others

abbrev pub payload : Fields → Json
payload data' =
    obj (field "currency" (or_else (find "currency" data') (str "USD")) (without_currency data'))

-- A search parameter; `undefined` and `null` are left out.
abbrev param : Platform → String → Option Json → List (String × String)
param p name none = []
param p name (some null) = []
param p name (some v) = (name, token_text p (some v)) ∷ []

abbrev pub bearer : Platform → Option Json → List (String × String)
bearer p token = ("Authorization", "Bearer " ⧺ token_text p token) ∷ []

-- A call of `this.client`.
abbrev pub called :
    ApiClient
    → String
    → String
    → List (String × String)
    → List (String × String)
    → Option Json
    → Request
called c method url params headers body = record {
  through = c.client;
  method = method;
  url = url;
  params = params;
  headers = headers;
  body = body;
}

-- The body of a question to the assistant.
abbrev pub question : (message locale account_context : String) → Json
question message locale account_context = obj (
    field "message" (str message)
      (field "locale" (str locale) (field "accountContext" (str account_context) end)))

module _ {F : Type 0} (N : Numbers F) (c : ApiClient) where
  -- `retryRequest`; `left` is `maxRetries - retries`, which the test `retries < maxRetries` compares
  -- with zero.
  pub retry_from : {A : Type 0} → (left retries : ℕ) → Action (World F) A → Action (World F) A
  retry_from zero retries fn w = fn w
  retry_from (suc left) retries fn w =
      let (o, w') = fn w in
      elim o [
        | returned a ↦ (returned a, w')
        | thrown e ↦ elim (is_retryable_error e) [
          | false ↦ (thrown e, w')
          | true ↦
              retry_from left (retries + 1) fn (wait (N.of_nat (c.retry_delay * (retries + 1))) w')
        ]
      ]

  pub retry_request : {A : Type 0} → Action (World F) A → Action (World F) A
  unfolding retry_from
  retry_request = retry_from c.max_retries 0

  abbrev getting : String → List (String × String) → List (String × String) → Action (World F) Json
  getting url params headers = request (called c "GET" url params headers none)

  abbrev posting : String → Json → List (String × String) → Action (World F) Json
  posting url body headers = request (called c "POST" url [] headers (some body))

  pub register : Json → Action (World F) Json
  unfolding retry_request
  register user_data = retry_request (posting "/api/users/register" user_data [])

  pub login : Json → Action (World F) Json
  unfolding retry_request
  login credentials = retry_request (posting "/api/users/login" credentials [])

  pub check_username : Platform → Option Json → Action (World F) Json
  unfolding retry_request
  check_username p username =
      retry_request (getting "/api/users/check-username" (param p "username" username) [])

  pub check_email : Platform → Option Json → Action (World F) Json
  unfolding retry_request
  check_email p email = retry_request (getting "/api/users/check-email" (param p "email" email) [])

  pub health_check : Action (World F) Json
  unfolding retry_request
  health_check = retry_request (getting "/api/healthz" [] [])

  -- The calls that carry a token.
  module _ (p : Platform) (token : Option Json) where
    pub get_user_profile : Action (World F) Json
    unfolding retry_request
    get_user_profile = retry_request (getting "/api/users/profile" [] (bearer p token))

    pub get_accounts : Action (World F) Json
    unfolding retry_request
    get_accounts = retry_request (getting "/api/accounts" [] (bearer p token))

    pub create_account : Json → Action (World F) Json
    unfolding retry_request
    create_account account = retry_request (posting "/api/accounts" account (bearer p token))

    pub get_account_by_id : Option Json → Action (World F) Json
    unfolding retry_request
    get_account_by_id id =
        retry_request (getting ("/api/accounts/" ⧺ token_text p id) [] (bearer p token))

    pub get_account_balance : Option Json → Action (World F) Json
    unfolding retry_request
    get_account_balance id =
        retry_request
          (getting ("/api/accounts/" ⧺ token_text p id ⧺ "/balance") [] (bearer p token))

    pub get_account_transactions : Option Json → Action (World F) Json
    unfolding retry_request
    get_account_transactions id =
        retry_request (getting "/api/transactions" (param p "accountId" id) (bearer p token))

    pub create_transaction : Fields → Action (World F) Json
    unfolding retry_request
    create_transaction data' =
        retry_request (posting "/api/transactions/create" (payload data') (bearer p token))

    pub get_recent_transactions : Action (World F) Json
    unfolding retry_request
    get_recent_transactions = retry_request (getting "/api/transactions" [] (bearer p token))

    -- The search for the transaction is part of what is tried again.
    pub get_transaction : Json → Action (World F) Json
    unfolding retry_request
    get_transaction id =
        retry_request do v ← getting "/api/transactions" [] (bearer p token); λ w. (picked id v, w)

    pub deposit : Fields → Action (World F) Json
    unfolding retry_request
    deposit data' =
        retry_request (posting "/api/transactions/deposit" (payload data') (bearer p token))

    pub withdraw : Fields → Action (World F) Json
    unfolding retry_request
    withdraw data' =
        retry_request (posting "/api/transactions/withdraw" (payload data') (bearer p token))

    pub transfer : Fields → Action (World F) Json
    unfolding retry_request
    transfer data' =
        retry_request (posting "/api/transactions/transfer" (payload data') (bearer p token))

    pub export_statement : Option Json → Action (World F) Json
    unfolding retry_request
    export_statement id = retry_request (
        posting ("/api/accounts/" ⧺ token_text p id ⧺ "/export-statement") (obj end)
          (bearer p token))

    -- This call is not tried again.
    pub ask_ai_chat : (message locale account_context : String) → Action (World F) Json
    ask_ai_chat message locale account_context =
        posting "/api/ai/chat" (question message locale account_context) (bearer p token)

    -- Nor is this one; the token is left out where it is falsy.
    pub raw_request : String → String → Json → Action (World F) Json
    raw_request method path data' = request (
        called c method path []
          (("Content-Type", "application/json") ∷ (if truthy? token then bearer p token else []))
          (some data'))

  -- This call goes past `this.client`, with settings of its own.
  pub get_notifications : Platform → Option Json → Action (World F) Json
  unfolding retry_request
  get_notifications p user = retry_request (
      request (record {
        through = record {
          base_url = "";
          timeout = c.client.timeout;
          headers = user_agent ∷ [];
          common = [];
        };
        method = "GET";
        url = c.notification_service_url ⧺ "/notifications/" ⧺ token_text p user;
        params = [];
        headers = [];
        body = none;
      }))
