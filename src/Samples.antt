-- ===== src/Samples.antt =====
-- A browser page and a server with concrete values, on which the tests run the theorems: a cookie
-- jar as an association list, for frontend/src/lib, and a `Response.json`, for
-- frontend/src/app/api.
use microsvc.Prelude.{
  ℕ, String, Bool, true, Option, none, some, List, [], ◌∷◌, ◌≡◌, ◌||◌, refl, arith, lookup, insert,
  lookup-insert, str_eq, eq_refl, if◌then◌else◌, ◌==◌, Json, int, str, obj, field, end,
}
use microsvc.Web.{Cookies, CookieLaws, World, Request, Reply, replied, failed, Error, Config}
use microsvc.Token.{Platform}
use microsvc.Client.{new_client}
use microsvc.Proxy.{Server, NextRequest, Fetch, Upstream}
use microsvc.Proxy.Laws.{RespondLaws}

abbrev pub Jar : Type 0
Jar = List (String × String)

abbrev without : String → Jar → Jar
without key [] = []
without key ((k, v) ∷ rest) =
    let others = without key rest in if str_eq k key then others else (k, v) ∷ others

instance abbrev pub cookies : Cookies Jar
cookies = record {
  get = λ key jar. lookup key jar;
  set = λ key value options jar. insert key value jar;
  remove = without;
}

lookup-without : (key : String) (jar : Jar) → lookup key (without key jar) ≡ none
unfolding lookup
lookup-without key [] = refl
lookup-without key ((k, v) ∷ rest) = ground (arith, lookup-without key rest)

pub cookie_laws : CookieLaws cookies
cookie_laws = record {
  get-set = λ key value options jar. ground (arith, lookup-insert key key value jar, eq_refl key);
  get-remove = lookup-without;
}

-- Every payload stands for the user 7, until a moment in 2033.
abbrev pub claims : Json
claims = obj (field "userId" (int 7) (field "sub" (str "ada") (field "exp" (int 2000000000) end)))

abbrev pub platform : Platform
platform = record {
  json_parse = λ text. some claims;
  to_number = λ v. none;
  to_text = λ v. "[object]";
  iso = λ ms. "2025-01-01T00:00:00.000Z";
}

-- A page in a browser whose server answers as given, with a token in its cookie.
abbrev pub page : (Request → Reply) → World Jar
page answer = record {
  jar = ("auth_token", "h.e30.s") ∷ [];
  cookie_name = none;
  has_window = true;
  href = none;
  process_trace = none;
  window_trace = none;
  now = 1700000000000;
  network = λ n request. answer request;
  client = new_client;
  sent = [];
  logged = [];
}

-- A page that nobody has signed in on.
abbrev pub guest_page : (Request → Reply) → World Jar
guest_page answer = record (page answer) { jar = [] }

abbrev pub error_of : ℕ → Config → Error
error_of status c = record {
  message = "Request failed";
  code = none;
  response = some (record { status = status; body = obj end });
  config = some c;
}

abbrev pub refuse : ℕ → Request → Reply
refuse status request = failed (error_of status request.config)

abbrev pub accept : Json → Request → Reply
accept body request = replied (record { status = 200; body = body })

abbrev pub unreachable : Error
unreachable = record {
  message = "connect ECONNREFUSED";
  code = none;
  response = none;
  config = none;
}

abbrev pub request : Option Json → List (String × String) → NextRequest
request body search_params = record { headers = []; search_params = search_params; body = body }

abbrev bodiless : ℕ → Bool
bodiless status = status == 204 || (status == 205 || status == 304)

-- A server behind a gateway that answers as given.
abbrev pub server : (Fetch → Option Upstream) → Server
server answer = record {
  api_gateway_url = none;
  ai_service_url = none;
  fetch = answer;
  respond =
      λ v status. if bodiless status then none else some (record { status = status; body = v });
  random = λ n. n;
}

pub respond_laws : (answer : Fetch → Option Upstream) → RespondLaws (server answer)
respond_laws answer = record { respond_ok = λ v status low high h204 h205 h304. ground arith }
