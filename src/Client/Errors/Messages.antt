-- ===== src/Client/Errors/Messages.antt =====
-- What `handleError` tells the caller.
use microsvc.Prelude.{
  String, true, false, Option, none, some, is_some, ◌≢◌, ◌≡◌, refl, Json, str, get, truthy, truthy?,
  or_default, arith, inl, inr, Option-cases, eq_iff, nonempty-some, is_nonempty-or_else,
}
use microsvc.Web.{Error, Response}
use microsvc.Client.Errors.{
  ApiResponse, api_error, is_code, handle_error, http_error, body_message, body_errors,
  status_message, one_error,
}

or_default-truthy : (o : Option Json) (d : Json) → truthy d ≡ true → truthy (or_default o d) ≡ true
or_default-truthy none d h = h
or_default-truthy (some v) d h = ground arith

or_default-eq_of_truthy : (v d : Json) → truthy v ≡ true → or_default (some v) d ≡ v
or_default-eq_of_truthy v d h = rw h

body_message-truthy : (body : Json) → truthy (body_message body) ≡ true
body_message-truthy body = ground (
  arith,
  or_default-truthy (get "message" body) (or_default (get "error" body) (str "An error occurred")),
  or_default-truthy (get "error" body) (str "An error occurred"),
)

http_error-eq : (r : Response) → http_error r ≡ api_error (body_message r.body) (body_errors r.body)
unfolding http_error
http_error-eq r = rw (
    or_default-eq_of_truthy (body_message r.body) (str (status_message r.status))
      (body_message-truthy r.body))

-- The status of an error response has no influence on what the caller is told: two responses
-- with the same body become the same result, whatever their statuses.
pub handle_error-status :
    (e : Error) (r s : Response)
    → e.response ≡ some r
    → s.body ≡ r.body
    → handle_error (record e { response = some s }) ≡ handle_error e
unfolding handle_error
handle_error-status e r s h same = ground (arith, http_error-eq r, http_error-eq s)

-- What becomes of an error: never a success, no data, a message that is not empty, and some list
-- of errors.
pub record IsFailure (a : ApiResponse) : Type 0 where
  pub failed : a.success ≡ false
  pub no_result : a.result ≡ none
  pub told : truthy? a.message ≡ true
  pub listed : is_some a.errors ≡ true

http_error-IsFailure : (r : Response) → IsFailure (http_error r)
http_error-IsFailure r = ground (arith, http_error-eq r, body_message-truthy r.body)

-- Whatever was thrown becomes a failure: not a success, no data, a message that is not empty,
-- and some value for the errors.
pub handle_error-IsFailure : (e : Error) → IsFailure (handle_error e)
unfolding handle_error
handle_error-IsFailure e = elim (Option-cases e.response) [
  | inl gone ↦
      ground
        (arith, is_nonempty-or_else e.message "Network error. Please check your connection." refl)
  | inr (r, there) ↦ ground (arith, http_error-IsFailure r)
]

is_code-eq-false : (c : Option String) → c ≢ some "ECONNABORTED" → is_code "ECONNABORTED" c ≡ false
is_code-eq-false none h = refl
is_code-eq-false (some c) h = ground (arith, eq_iff c "ECONNABORTED")

-- An error that is no timeout and has no response is reported by its own message, which is also the
-- one entry of the list of errors.
pub handle_error_unanswered :
    (e : Error)
    → e.code ≢ some "ECONNABORTED"
    → e.response ≡ none
    → e.message ≢ ""
    → handle_error e ≡ api_error (str e.message) (one_error (str e.message))
unfolding handle_error
handle_error_unanswered e h gone told =
    ground (arith, is_code-eq-false e.code h, nonempty-some e.message told)
