-- ===== src/Web.antt =====
-- What frontend/src/lib reads and writes outside itself: the page, its cookies, the console and
-- the HTTP library. `World` is the state that every operation passes on. The HTTP replies are a
-- field: the reply to the n-th request is any function of that request, so a theorem about a world
-- holds for every server.
use microsvc.Prelude.{ℕ, String, Bool, Option, List, ◌∷◌, ◌≡◌, none, some}
use microsvc.Prelude.{Json}
use microsvc.Prelude.Lists.{length}

-- The options that `TokenManager.setToken` gives to js-cookie.
pub record CookieOptions : Type 0 where
  pub http_only : Bool
  pub secure : Bool
  pub same_site : String
  pub expires : ℕ

-- The package js-cookie, which the program calls; its jar is a parameter.
pub record Cookies (Jar : Type 0) : Type 0 where
  pub get : String → Jar → Option String
  pub set : String → String → CookieOptions → Jar → Jar
  pub remove : String → Jar → Jar

-- What js-cookie documents of `get`, `set` and `remove` in a browser.
pub record CookieLaws {Jar : Type 0} (C : Cookies Jar) : Type 0 where
  pub get-set : (k v : String) (o : CookieOptions) (j : Jar) → C.get k (C.set k v o j) ≡ some v
  pub get-remove : (k : String) (j : Jar) → C.get k (C.remove k j) ≡ none

-- `form` is a `FormData` with its entries; a file is named by a text.
pub data Body : Type 0 where
  empty : Body
  json : Json → Body
  form : List (String × String) → Body

-- A request as the interceptors see it; `retry` is the mark `_retry`.
pub record Config : Type 0 where
  pub method : String
  pub url : String
  pub body : Body
  pub headers : List (String × String)
  pub retry : Bool

pub record Response : Type 0 where
  pub status : ℕ
  pub body : Json

-- A rejection of the HTTP library, or an exception, with the fields that the program reads.
pub record Error : Type 0 where
  pub message : String
  pub code : Option String
  pub response : Option Response
  pub config : Option Config

pub data Reply : Type 0 where
  replied : Response → Reply
  failed : Error → Reply

-- The defaults of an axios instance: what it was created with, and the headers added to all of its
-- requests since.
pub record Axios : Type 0 where
  pub base_url : String
  pub timeout : ℕ
  pub headers : List (String × String)
  pub common : List (String × String)

pub record Request : Type 0 where
  pub through : Axios
  pub config : Config

-- A line of the console. Time stamps, durations and stacks are left out.
pub data LogEntry : Type 0 where
  api_request : String → String → LogEntry
  api_response : String → String → ℕ → LogEntry
  api_error : String → String → String → LogEntry
  transaction : String → ℕ → Json → Bool → LogEntry
  console : String → LogEntry

pub record World (Jar : Type 0) : Type 0 where
  pub jar : Jar
  -- `process.env.NEXT_PUBLIC_JWT_COOKIE_NAME`
  pub cookie_name : Option String
  -- `typeof window !== 'undefined'`
  pub has_window : Bool
  -- the last address assigned to `window.location.href`
  pub href : Option String
  -- `process.__OTEL_TRACE_UTILS__.getCurrentTraceContext()`, where the utilities are there
  pub process_trace : Option (Option String)
  -- `window.__OTEL_TRACE_CONTEXT__`
  pub window_trace : Option String
  -- `Date.now()`
  pub now : ℕ
  pub network : ℕ → Request → Reply
  -- the defaults of the singleton `apiClient`
  pub client : Axios
  -- the requests sent and the lines logged, the latest first
  pub sent : List Request
  pub logged : List LogEntry

module _ {Jar : Type 0} where
  abbrev pub log : LogEntry → World Jar → World Jar
  log e w = record w { logged = e ∷ w.logged }

  -- `window.location.href = address`
  abbrev pub redirect : String → World Jar → World Jar
  redirect address w = record w { href = some address }

  -- The adapter of the HTTP library: one request out, one reply back.
  unfoldable pub exchange : Axios → Config → World Jar → Reply × World Jar
  exchange i c w =
      let r : Request = record { through = i; config = c } in
      (w.network (length w.sent) r, record w { sent = r ∷ w.sent })
