-- ===== src/Client.antt =====
-- frontend/src/lib/api/client.ts: the class `ApiClient`, its interceptors and its five verbs.
pub mod Errors
pub mod Calls
pub mod Laws
pub mod Tests
pub use Errors.{ApiResponse, api_ok, handle_error, one_error}
use microsvc.Prelude.{
  ℕ, String, Bool, true, false, Option, none, some, nonempty, List, [], ◌∷◌, insert, erase, ◌⧺◌,
  show, ◌==◌, if◌then◌else◌, Json, truthy,
}
use microsvc.Web.{
  Cookies, World, Body, empty, json, form, Config, Response, Error, Reply, replied, failed, Axios,
  Request, exchange, log, redirect, api_request, api_response, api_error, console,
}
use microsvc.Token.{get_token, remove_token}

-- The instance that the constructor creates.
abbrev pub new_client : Axios
new_client = record {
  base_url = "";
  timeout = 30000;
  headers = ("Content-Type", "application/json") ∷ [];
  common = [];
}

-- `getCurrentTraceContext`
pub get_current_trace_context : {Jar : Type 0} → World Jar → Option String
get_current_trace_context w = elim w.process_trace [
  | some context ↦ context
  | none ↦ if w.has_window then nonempty w.window_trace else none
]

abbrev pub set_header : String → Option String → Config → Config
set_header name none c = c
set_header name (some value) c = record c { headers = insert name value c.headers }

abbrev pub bearer : Option String → Option String
bearer none = none
bearer (some token) = some ("Bearer " ⧺ token)

abbrev pub has_status : ℕ → Option Response → Bool
has_status status none = false
has_status status (some r) = r.status == status

-- What reading `_retry` of an `undefined` config throws.
abbrev pub no_config : Error
no_config = record {
  message = "Cannot read properties of undefined (reading '_retry')";
  code = none;
  response = none;
  config = none;
}

-- `{...error, message: 'Network error. …'}` where there is no response.
abbrev pub with_network_message : Error → Error
with_network_message e = elim e.response [
  | none ↦ record e { message = "Network error. Please check your connection." }
  | some _ ↦ e
]

pub data Outcome : Type 0 where
  resolved : Response → Outcome
  rejected : Error → Outcome

abbrev pub config : String → String → Body → List (String × String) → Config
config method url body headers = record {
  method = method;
  url = url;
  body = body;
  headers = headers;
  retry = false;
}

abbrev data_note : Body → String
data_note empty = "without data"
data_note (json v) = if truthy v then "with data" else "without data"
data_note (form entries) = "with data"

module _ {Jar : Type 0} ⦃C : Cookies Jar⦄ where
  -- The request interceptor: the token and the trace context, where there are any.
  pub on_request : Config → World Jar → Config
  on_request c w =
      set_header "traceparent" (nonempty (get_current_trace_context w))
        (set_header "Authorization" (bearer (get_token w)) c)

  -- The first time that a request meets a 401: the token goes, and the page goes to the login.
  pub on_unauthorized : Config → Error → World Jar → Error × World Jar
  on_unauthorized c e w =
      let marked = record e { config = some (record c { retry = true }) } in
      let w' = remove_token w in (marked, if w.has_window then redirect "/login" w' else w')

  -- The response interceptor on an error.
  pub on_error : Error → World Jar → Error × World Jar
  unfolding on_unauthorized
  on_error e w =
      if has_status 401 e.response
      then elim e.config [
        | none ↦ (no_config, w)
        | some c ↦ if c.retry then (e, w) else on_unauthorized c e w
      ]
      else (with_network_message e, w)

  pub settle : Reply → World Jar → Outcome × World Jar
  unfolding on_error
  settle (replied r) w = (resolved r, w)
  settle (failed e) w = let (e', w') = on_error e w in (rejected e', w')

  -- A request through `this.axiosInstance`.
  pub send : Config → World Jar → Outcome × World Jar
  unfolding on_request settle exchange
  send c w = let (r, w') = exchange w.client (on_request c w) w in settle r w'

  -- The `try`/`catch` of `get` and `post`, with their structured log lines.
  pub finish_logged : String → String → Outcome × World Jar → ApiResponse × World Jar
  finish_logged method url (resolved r, w) =
      (api_ok r.body, log (api_response method url r.status) w)
  finish_logged method url (rejected e, w) =
      (handle_error e, log (api_error method url e.message) w)

  -- The `try`/`catch` of `put`, `delete` and `patch`, with their console lines.
  pub finish : String → String → Outcome × World Jar → ApiResponse × World Jar
  finish method url (resolved r, w) = (
    api_ok r.body,
    log (console ("[API] " ⧺ method ⧺ " " ⧺ url ⧺ " - Success (" ⧺ show r.status ⧺ ")")) w,
  )
  finish method url (rejected e, w) =
      (handle_error e, log (console ("[API] " ⧺ method ⧺ " " ⧺ url ⧺ " - Error:")) w)

  -- Only the configuration's headers are ever given.
  pub get : String → List (String × String) → World Jar → ApiResponse × World Jar
  unfolding send finish_logged
  get url headers w =
      finish_logged "GET" url
        (send (config "GET" url empty headers) (log (api_request "GET" url) w))

  pub post : String → Body → List (String × String) → World Jar → ApiResponse × World Jar
  unfolding send finish_logged
  post url body headers w =
      finish_logged "POST" url
        (send (config "POST" url body headers) (log (api_request "POST" url) w))

  pub put : String → Body → World Jar → ApiResponse × World Jar
  unfolding send finish
  put url body w = finish "PUT" url (
      send (config "PUT" url body []) (log (console ("[API] PUT " ⧺ url ⧺ " " ⧺ data_note body)) w))

  pub delete : String → World Jar → ApiResponse × World Jar
  unfolding send finish
  delete url w =
      finish "DELETE" url
        (send (config "DELETE" url empty []) (log (console ("[API] DELETE " ⧺ url)) w))

  pub patch : String → Body → World Jar → ApiResponse × World Jar
  unfolding send finish
  patch url body w = finish "PATCH" url (
      send (config "PATCH" url body [])
        (log (console ("[API] PATCH " ⧺ url ⧺ " " ⧺ data_note body)) w))

-- `updateBaseURL`, `updateTimeout`, `setHeader` and `removeHeader`, on the instance's defaults.
module _ {Jar : Type 0} where
  abbrev with_client : Axios → World Jar → World Jar
  with_client i w = record w { client = i }

  pub update_base_url : String → World Jar → World Jar
  update_base_url url w = with_client (record (w.client) { base_url = url }) w

  pub update_timeout : ℕ → World Jar → World Jar
  update_timeout ms w = with_client (record (w.client) { timeout = ms }) w

  pub set_common_header : String → String → World Jar → World Jar
  set_common_header key value w =
      with_client (record (w.client) { common = insert key value w.client.common }) w

  pub remove_common_header : String → World Jar → World Jar
  remove_common_header key w =
      with_client (record (w.client) { common = erase key w.client.common }) w
