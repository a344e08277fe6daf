-- ===== src/Proxy/Assistant.antt =====
-- frontend/src/app/api/ai/chat/route.ts: the routes of the assistant. They answer 200 whatever the
-- status of the service, and have errors of their own.
use microsvc.Prelude.{
  String, Bool, true, false, Option, none, some, or_else, nonempty, [], ◌∷◌, ◌⧺◌, is_nonempty, Json,
  null, bool, num, str, arr, obj, nil, field, end, get,
}
use microsvc.Proxy.{
  Server, NextRequest, NextResponse, Handler, catch, fetch, need, reply, content_type, ◌>>=◌,
}

abbrev pub ai_service : Server → String
ai_service sv = or_else (nonempty sv.ai_service_url) "http://banking-ai:8080"

-- `GET`: the list of providers, empty where the service cannot be asked.
unfoldable pub providers : Server → Handler NextResponse
providers sv = catch (reply sv (obj (field "providers" (arr nil) end)) 200) do
  response ←
      fetch sv (record {
        url = ai_service sv ⧺ "/api/providers";
        method = "GET";
        headers = [];
        body = none;
      })
  answer ← need response.body
  reply sv answer 200

-- A text that is not empty.
abbrev pub is_message : Option Json → Bool
is_message none = false
is_message (some null) = false
is_message (some (bool b)) = false
is_message (some (num n)) = false
is_message (some (str s)) = is_nonempty s
is_message (some (arr items)) = false
is_message (some (obj fields)) = false

abbrev pub error : String → Json
error text = obj (field "error" (str text) end)

-- Reading `message` of `null` throws.
abbrev pub object : Json → Option Json
object null = none
object (bool b) = some (bool b)
object (num n) = some (num n)
object (str s) = some (str s)
object (arr items) = some (arr items)
object (obj fields) = some (obj fields)

-- The rest of `POST`, once the message has been tested.
unfoldable pub asked : Server → Bool → Json → Handler NextResponse
asked sv true body = do
  response ← fetch sv (record {
    url = ai_service sv ⧺ "/api/chat";
    method = "POST";
    headers = content_type ∷ [];
    body = some body;
  })
  answer ← need response.body
  reply sv answer 200
asked sv false body = reply sv (error "Message is required") 400

-- `POST`: a question without a message is refused here, with 400.
unfoldable pub chat : Server → NextRequest → Handler NextResponse
unfolding asked
chat sv request = catch (reply sv (error "AI service unavailable") 503) do
  sent ← need request.body
  body ← need (object sent)
  asked sv (is_message (get "message" body)) body
