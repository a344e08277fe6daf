-- ===== src/Pages/Assistant.antt =====
-- frontend/src/app/ai-assistant/page.tsx: the conversation with the assistant, over time, and with
-- the route of frontend/src/app/api/ai/chat that answers it. A question and its answer are two
-- steps: between them the page waits.
pub mod Laws
mod Tests
use mathlib.Core.List.{◌++◌}
use microsvc.Prelude.{
  String, Bool, true, false, not, ◌&&◌, ◌||◌, Option, none, some, nonempty, List, [], ◌∷◌, Json,
  null, bool, num, str, arr, obj, field, end, get, truthy?, or_default, is_nonempty, str_eq,
  if◌then◌else◌, ◌⧺◌, ◌≡◌,
}
use microsvc.Proxy.{Server, Fetch, NextResponse, content_type}
use microsvc.Proxy.Assistant.{chat}
use microsvc.Pages.{◌>>=◌, not_null}

-- A message of the reader, or of the assistant with the results of the providers, if there are any.
pub data ChatMessage : Type 0 where
  user : String → ChatMessage
  assistant : Json → (results : Option Json) → ChatMessage

-- `sent` holds the requests that the page has made, the first one first.
pub record Page : Type 0 where
  pub messages : List ChatMessage
  pub input : String
  pub is_loading : Bool
  pub sent : List Fetch

abbrev pub opened : Page
opened = record { messages = []; input = ""; is_loading = false; sent = [] }

-- `...(token && { Authorization: … })`, for a token that is not empty if it is there
abbrev pub token_header : Option String → List (String × String)
token_header none = []
token_header (some token) = ("Authorization", "Bearer " ⧺ token) ∷ []

abbrev pub question : Option String → String → Fetch
question token text = record {
  url = "/api/ai/chat";
  method = "POST";
  headers = content_type ∷ token_header token;
  body = some (obj (field "message" (str text) end));
}

-- `sendMessage` up to its request, with the token of the cookie and the input without its outer
-- spaces.
pub send_message : (trim : String → String) → (token : Option String) → Page → Page
send_message trim token page =
    let trimmed = trim page.input in
    if not (is_nonempty trimmed) || page.is_loading then page else record {
      messages = page.messages ++ user trimmed ∷ [];
      input = "";
      is_loading = true;
      sent = page.sent ++ question token trimmed ∷ [];
    }

-- The message that an answer becomes; `none` is a request that failed or is no JSON.
pub reply_of : Option Json → ChatMessage
reply_of answer = elim (answer >>= not_null) [
  | none ↦ assistant (str "Unable to reach the AI service. Please try again later.") none
  | some data' ↦
      if truthy? (get "results" data')
      then assistant (str "") (get "results" data')
      else assistant (or_default (get "error" data') (str "Something went wrong.")) none
]

-- `sendMessage` from its answer on.
pub answered : Option Json → Page → Page
unfolding reply_of
answered answer page = record page {
  messages = page.messages ++ reply_of answer ∷ [];
  is_loading = false;
}

-- `handleKeyDown`: the key that sends, without shift.
pub handle_key_down :
    (key : String) (shift_key : Bool)
    → (trim : String → String) → (token : Option String) → Page
    → Page
unfolding send_message
handle_key_down key shift_key trim token page =
    if str_eq key "Enter" && not shift_key then send_message trim token page else page

-- The page over time: the reader types, sends by a key or by the button, and an answer arrives.
pub data Step (trim : String → String) : Page → Page → Type 0 where
  typed : (page : Page) (text : String) → Step trim page (record page { input = text })
  pressed :
      (page : Page) (key : String) (shift_key : Bool) (token : Option String)
      → Step trim page (handle_key_down key shift_key trim token page)
  clicked : (page : Page) (token : Option String) → Step trim page (send_message trim token page)
  arrived :
      (page : Page) (answer : Option Json)
      → page.is_loading ≡ true
      → Step trim page (answered answer page)

pub data Reach (trim : String → String) : Page → Type 0 where
  start : Reach trim opened
  next : {page after : Page} → Reach trim page → Step trim page after → Reach trim after

-- What the route answers to a request of the page, without the header names that it does not read.
pub route_answer : Server → Fetch → Option Json
route_answer sv f =
    (chat sv (record { headers = f.headers; search_params = []; body = f.body }) []).0
    >>= λ (response : NextResponse). some response.body

-- A question, the route, and the answer.
pub asked_and_answered : Server → (String → String) → Option String → Page → Page
unfolding send_message answered
asked_and_answered sv trim token page =
    answered (route_answer sv (question token (trim page.input))) (send_message trim token page)
