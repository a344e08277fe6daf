-- ===== src/Logging/Laws.antt =====
-- What a line of the log says.
use mathlib.Core.List.{List, [], ◌∷◌, ◌++◌}
use microsvc.Prelude.{
  ℕ, String, true, Option, none, some, nonempty, lookup, codes, Json, str, Fields, end, field, find,
  str_eq, eq_iff, if◌then◌else◌, ◌⧺◌, ◌≡◌, ◌↔◌, refl, ap, ◌∙◌, arith, is_some,
}
use microsvc.Pages.Transactions.{assign}
use microsvc.Logging.{
  spread, create_log_entry, ErrorText, log_error, log_api_request, begins, Incoming, middleware,
}

find-assign_if :
    (key k : String) (v : Json) (fields : Fields)
    → find k (assign key v fields) ≡ (if str_eq key k then some v else find k fields)
unfolding find assign
find-assign_if key k v end = refl
find-assign_if key k v (field j w rest) =
    ground (arith, eq_iff key k, eq_iff j key, eq_iff j k, find-assign_if key k v rest)

-- The last value of a key.
abbrev pub find_last : String → Fields → Option Json
find_last k end = none
find_last k (field j v rest) = elim (find_last k rest) [
  | some w ↦ some w
  | none ↦ if str_eq j k then some v else none
]

find-spread :
    (k : String) (fields metadata : Fields)
    → find k (spread fields metadata)
      ≡ (elim (find_last k metadata) [ some w ↦ some w | none ↦ find k fields ])
unfolding spread
find-spread k fields end = refl
find-spread k fields (field j v metadata) =
    ground (arith, find-assign_if j k v fields, find-spread k (assign j v fields) metadata)

-- A line has the level, the service and the message that its function gives it only where its
-- metadata does not have a property of that name, which comes first.
pub find-create_log_entry :
    (timestamp level message : String) (metadata : Fields) (k : String)
    → find k (create_log_entry timestamp level message metadata) ≡ (elim (find_last k metadata) [
      | some w ↦ some w
      | none ↦
          if str_eq "timestamp" k
          then some (str timestamp)
          else if str_eq "level" k
          then some (str level)
          else if str_eq "service" k
          then some (str "frontend")
          else if str_eq "message" k
          then some (str message)
          else none
    ])
unfolding create_log_entry find
find-create_log_entry timestamp level message metadata k =
    find-spread k
      (field "timestamp" (str timestamp) (
        field "level" (str level)
          (field "service" (str "frontend") (field "message" (str message) end))))
      metadata

-- The line of an error has the text of the error for its message, and nowhere the text "Application
-- Error" that it was given.
pub log_error_message :
    (timestamp : String) (error : ErrorText) (context : Option Json)
    → (find "message" (log_error timestamp error context) ≡ some (str error.message))
      × (find "level" (log_error timestamp error context) ≡ some (str "error"))
unfolding log_error find spread assign
log_error_message timestamp error context = (ground arith, ground arith)

find_url :
    (timestamp method url : String) (user_agent ip : Option String)
    → find "url" (log_api_request timestamp method url user_agent ip) ≡ some (str url)
unfolding log_api_request find spread assign
find_url timestamp method url user_agent ip = ground arith

begins_self : (prefix text : List ℕ) → begins prefix (prefix ++ text) ≡ true
begins_self [] text = refl
begins_self (c ∷ prefix) text = ground (arith, begins_self prefix text)

begins_rest :
    (prefix text : List ℕ) → begins prefix text ≡ true → (rest : List ℕ) × (text ≡ prefix ++ rest)
begins_rest [] text h = (text, refl)
begins_rest (c ∷ prefix) [] h = absurd (ground arith)
begins_rest (c ∷ prefix) (d ∷ text) h =
    let (rest, e) = begins_rest prefix text (ground arith) in (rest, ground arith)

-- The middleware writes a line exactly for the paths that begin with "/api/", and its line has the
-- path with its search text for an address.
pub middleware_iff :
    (timestamp : String) (request : Incoming)
    → ((is_some (middleware timestamp request) ≡ true)
        ↔ ((rest : List ℕ) × (codes request.pathname ≡ codes "/api/" ++ rest)))
      × ((line : Fields)
          → middleware timestamp request ≡ some line
          → find "url" line ≡ some (str (request.pathname ⧺ request.search)))
unfolding middleware
middleware_iff timestamp request = (
  (
    λ h. begins_rest (codes "/api/") (codes request.pathname) (ground arith),
    λ r.
        let matched : begins (codes "/api/") (codes request.pathname) ≡ true =
          ap (begins (codes "/api/")) (r.1) ∙ begins_self (codes "/api/") r.0 in
        rw matched refl,
  ),
  λ line h. ground (
    arith,
    find_url timestamp request.method (request.pathname ⧺ request.search)
        (nonempty (lookup "user-agent" request.headers))
        (nonempty (lookup "x-forwarded-for" request.headers)),
  ),
)
