-- ===== src/Proxy/Checks.antt =====
-- The two checks of a name, and the assistant.
use mathlib.Core.List.{◌++◌}
use microsvc.Prelude.{
  String, true, none, some, List, [], ◌∷◌, ◌≡◌, ◌⧺◌, arith, nonempty, lookup, Json, null, obj, get,
  if◌then◌else◌,
}
use microsvc.Proxy.{Server, NextRequest, Fetch, Upstream, gateway, content_type, message}
use microsvc.Proxy.Users.{check_username, check_email}
use microsvc.Proxy.Assistant.{chat, asked, is_message, ai_service}
use microsvc.Proxy.Laws.{RespondLaws}

-- The request that a check sends for a name: the name stands in the address as it is.
abbrev pub check_fetch : Server → (path name : String) → Fetch
check_fetch sv path name = record {
  url = gateway sv ⧺ path ⧺ name;
  method = "GET";
  headers = content_type ∷ [];
  body = none;
}

abbrev pub chat_fetch : Server → Json → Fetch
chat_fetch sv body = record {
  url = ai_service sv ⧺ "/api/chat";
  method = "POST";
  headers = content_type ∷ [];
  body = some body;
}

-- A check of a name that is not empty sends exactly one request, in whose address the name stands
-- as it is, without an escape.
pub checks_send :
    (sv : Server) (request : NextRequest) (calls : List Fetch) (username email : String)
    → nonempty (lookup "username" request.search_params) ≡ some username
    → nonempty (lookup "email" request.search_params) ≡ some email
    → ((check_username sv request calls).1
        ≡ calls ++ check_fetch sv "/api/users/check-username?username=" username ∷ [])
      × ((check_email sv request calls).1
          ≡ calls ++ check_fetch sv "/api/users/check-email?email=" email ∷ [])
unfolding check_username check_email
checks_send sv request calls username email has_username has_email = ground arith

module _ (sv : Server) (laws : RespondLaws sv) where
  -- A request that gives no username and no email, or empty ones, is refused with a 400 by both
  -- checks, and nothing is sent.
  pub check_refuses :
      (request : NextRequest) (calls : List Fetch)
      → nonempty (lookup "username" request.search_params) ≡ none
      → nonempty (lookup "email" request.search_params) ≡ none
      → (check_username sv request calls ≡ (
        some (record { status = 400; body = message "Username parameter is required" }),
        calls,
      ))
        × (check_email sv request calls
            ≡ (some (record { status = 400; body = message "Email parameter is required" }), calls))
  unfolding check_username check_email
  check_refuses request calls no_name no_email =
      let respond_400 = λ (v : Json).
        laws.respond_ok v 400 (omega arith) (omega arith) (omega arith) (omega arith)
          (omega arith) in
      ground (
        arith,
        respond_400 (message "Username parameter is required"),
        respond_400 (message "Email parameter is required"),
      )

  -- On a request with a JSON body the assistant's route asks its service exactly when that body
  -- has a message that is a text and not empty; it then sends that body, once.
  pub chat-fetches :
      (request : NextRequest) (calls : List Fetch) (body : Json)
      → request.body ≡ some body
      → (chat sv request calls).1
        ≡ (if is_message (get "message" body) then calls ++ chat_fetch sv body ∷ [] else calls)
  unfolding chat asked get
  chat-fetches request calls null h = ground arith
  chat-fetches request calls _ h = ground arith

  -- To a request with a message that is a text and not empty, the assistant's route answers with
  -- 200 and the JSON answer of its service, whatever the status of that answer was.
  pub chat_hides_status :
      (request : NextRequest) (calls : List Fetch) (body v : Json) (u : Upstream)
      → request.body ≡ some body
      → is_message (get "message" body) ≡ true
      → sv.fetch (chat_fetch sv body) ≡ some u
      → u.body ≡ some v
      → chat sv request calls
        ≡ (some (record { status = 200; body = v }), calls ++ chat_fetch sv body ∷ [])
  unfolding chat asked get
  chat_hides_status request calls null v u h asks hf hv = absurd (ground arith)
  chat_hides_status request calls (obj fields) v u h asks hf hv = ground (
    arith,
    laws.respond_ok v 200 (omega arith) (omega arith) (omega arith) (omega arith) (omega arith),
  )
  chat_hides_status request calls _ v u h asks hf hv = absurd (ground arith)
