-- ===== src/Client/Errors.antt =====
-- `ApiClient.handleError`: what an exception becomes. A message or a list of errors may be any
-- JSON value that the server put there.
pub mod Messages
use microsvc.Prelude.{
  ℕ, String, Bool, true, false, Option, none, some, nonempty, or_else, ◌⧺◌, show, str_eq, ◌==◌,
  if◌then◌else◌, Json, str, arr, nil, cons, get, truthy, or_default,
}
use microsvc.Web.{Error, Response}

pub record ApiResponse : Type 0 where
  pub success : Bool
  pub result : Option Json
  pub message : Option Json
  pub errors : Option Json

abbrev pub api_ok : Json → ApiResponse
api_ok v = record { success = true; result = some v; message = none; errors = none }

abbrev pub api_error : Json → Json → ApiResponse
api_error message errors = record {
  success = false;
  result = none;
  message = some message;
  errors = some errors;
}

-- `[message]`
abbrev pub one_error : Json → Json
one_error message = arr (cons message nil)

abbrev pub is_code : String → Option String → Bool
is_code expected none = false
is_code expected (some code) = str_eq code expected

-- `message || …` for each status.
abbrev pub status_message : ℕ → String
status_message status =
    if status == 400
    then "Bad request. Please check your input."
    else if status == 401
    then "Unauthorized. Please log in again."
    else if status == 403
    then "Forbidden. You do not have permission to perform this action."
    else if status == 404
    then "Not found. The requested resource does not exist."
    else if status == 409
    then "Conflict. The request could not be completed due to a conflict."
    else if status == 422
    then "Validation error. Please check your input."
    else if status == 500
    then "Internal server error. Please try again later."
    else if status == 503
    then "Service unavailable. Please try again later."
    else "Request failed with status " ⧺ show status

-- `data.message || data.error || 'An error occurred'`
abbrev pub body_message : Json → Json
body_message body =
    if truthy body
    then or_default (get "message" body) (or_default (get "error" body) (str "An error occurred"))
    else str "An error occurred"

abbrev pub body_errors : Json → Json
body_errors body =
    if truthy body then or_default (get "errors" body) (one_error (body_message body)) else arr nil

pub http_error : Response → ApiResponse
http_error r =
    let message = body_message r.body in
    api_error (or_default (some message) (str (status_message r.status))) (body_errors r.body)

abbrev pub timeout_result : ApiResponse
timeout_result =
    api_error (str "Request timeout. Please try again.") (one_error (str "Request timeout"))

pub handle_error : Error → ApiResponse
unfolding http_error
handle_error e = if is_code "ECONNABORTED" e.code then timeout_result else elim e.response [
  | none ↦
      api_error
        (str (or_else (nonempty (some e.message)) "Network error. Please check your connection."))
        (one_error (str (or_else (nonempty (some e.message)) "Network error")))
  | some r ↦ http_error r
]
