-- ===== src/AuthApi.antt =====
-- frontend/src/lib/api/auth.ts: the class `AuthAPI`, with an HTTP instance and interceptors of its
-- own. Unlike those of `ApiClient` they add no trace context, do not mark a request as retried,
-- rewrite no message, and redirect without a test for a window.
pub mod Laws
use microsvc.Prelude.{
  ℕ, String, Bool, true, false, Option, none, some, List, [], ◌∷◌, insert, ◌⧺◌, if◌then◌else◌, Json,
  null, bool, num, str, arr, obj, cons, nil, field, end, get, or_default,
}
use microsvc.Web.{
  Cookies, World, Body, empty, json, Config, Response, Error, Reply, replied, failed, Axios,
  exchange, redirect,
}
use microsvc.Token.{get_token, remove_token}
use microsvc.Client.{
  Outcome, resolved, rejected, has_status, bearer, set_header, config, no_config, one_error,
}

abbrev pub auth_instance : Axios
auth_instance = record {
  base_url = "";
  timeout = 30000;
  headers = ("Content-Type", "application/json") ∷ [];
  common = [];
}

-- What assigning to `window.location` throws where there is no window.
abbrev no_window : Error
no_window = record {
  message = "window is not defined";
  code = none;
  response = none;
  config = none;
}

module _ {Jar : Type 0} ⦃C : Cookies Jar⦄ where
  unfoldable pub on_request : Config → World Jar → Config
  on_request c w = set_header "Authorization" (bearer (get_token w)) c

  pub on_unauthorized : Error → World Jar → Error × World Jar
  on_unauthorized e w =
      let w' = remove_token w in if w.has_window then (e, redirect "/login" w') else (no_window, w')

  pub on_error : Error → World Jar → Error × World Jar
  unfolding on_unauthorized
  on_error e w =
      if has_status 401 e.response
      then elim e.config [
        | none ↦ (no_config, w)
        | some c ↦ if c.retry then (e, w) else on_unauthorized e w
      ]
      else (e, w)

  pub settle : Reply → World Jar → Outcome × World Jar
  unfolding on_error
  settle (replied r) w = (resolved r, w)
  settle (failed e) w = let (e', w') = on_error e w in (rejected e', w')

  -- A request through `authAPI`.
  pub send : Config → World Jar → Outcome × World Jar
  unfolding on_request settle exchange
  send c w = let (r, w') = exchange auth_instance (on_request c w) w in settle r w'

-- Each field is what the server put there; `none` is `undefined`.
pub record TokenData : Type 0 where
  pub token : Option Json
  pub type : Option Json
  pub id : Option Json
  pub username : Option Json
  pub email : Option Json
  pub roles : Option Json

pub record AuthResponse : Type 0 where
  pub success : Bool
  pub message : Json
  pub result : Option TokenData
  pub errors : Option Json

abbrev pub token_data : Json → TokenData
token_data v = record {
  token = get "token" v;
  type = get "type" v;
  id = get "id" v;
  username = get "username" v;
  email = get "email" v;
  roles = get "roles" v;
}

abbrev pub auth_ok : String → Json → AuthResponse
auth_ok message v = record {
  success = true;
  message = str message;
  result = some (token_data v);
  errors = none;
}

-- `response?.data?.key || fallback`
abbrev pub of_response : String → Json → Option Response → Json
of_response key fallback none = fallback
of_response key fallback (some r) = or_default (get key r.body) fallback

pub auth_failed : String → Error → AuthResponse
auth_failed text e = record {
  success = false;
  message = of_response "message" (str text) e.response;
  result = none;
  errors = some (of_response "errors" (one_error (str text)) e.response);
}

-- What reading a field of `null` throws.
abbrev pub null_body : Error
null_body = record {
  message = "Cannot read properties of null (reading 'token')";
  code = none;
  response = none;
  config = none;
}

abbrev pub is_null : Json → Bool
is_null null = true
is_null (bool b) = false
is_null (num n) = false
is_null (str s) = false
is_null (arr items) = false
is_null (obj fields) = false

-- The `try`/`catch` of `register` and `login`.
pub auth_result : String → String → Outcome → AuthResponse
unfolding auth_failed
auth_result done failure (resolved r) =
    if is_null r.body then auth_failed failure null_body else auth_ok done r.body
auth_result done failure (rejected e) = auth_failed failure e

-- `{ success: false, message }`
abbrev pub profile_failed : Error → Json
profile_failed e = obj (
    field "success" (bool false)
      (field "message" (of_response "message" (str "Failed to fetch profile") e.response) end))

abbrev unavailable : Json
unavailable = obj (field "available" (bool false) end)

-- The body of the reply, or what the `catch` returns.
abbrev pub body_or : (Error → Json) → Outcome → Json
body_or caught (resolved r) = r.body
body_or caught (rejected e) = caught e

module _ {Jar : Type 0} ⦃C : Cookies Jar⦄ where
  pub register : Json → World Jar → AuthResponse × World Jar
  unfolding send auth_result
  register user_data w =
      let (o, w') = send (config "POST" "/api/users/register" (json user_data) []) w in
      (auth_result "Registration successful" "Registration failed" o, w')

  pub login : Json → World Jar → AuthResponse × World Jar
  unfolding send auth_result
  login credentials w =
      let (o, w') = send (config "POST" "/api/users/login" (json credentials) []) w in
      (auth_result "Login successful" "Login failed" o, w')

  pub get_profile : World Jar → Json × World Jar
  unfolding send
  get_profile w =
      let (o, w') = send (config "GET" "/api/users/profile" empty []) w in
      (body_or profile_failed o, w')

  pub check_username : String → World Jar → Json × World Jar
  unfolding send
  check_username username w =
      let url = "/api/users/check-username?username=" ⧺ username in
      let (o, w') = send (config "GET" url empty []) w in (body_or (λ _. unavailable) o, w')

  pub check_email : String → World Jar → Json × World Jar
  unfolding send
  check_email email w =
      let url = "/api/users/check-email?email=" ⧺ email in
      let (o, w') = send (config "GET" url empty []) w in (body_or (λ _. unavailable) o, w')
