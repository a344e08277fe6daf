-- ===== src/Proxy.antt =====
-- The server-side routes of the frontend, frontend/src/app/api: what every route handler works
-- with. A handler is an action that may throw; it sends requests to the gateway by `fetch`, which
-- are recorded in order, and returns a response.
pub mod Accounts
pub mod Transactions
pub mod Users
pub mod Assistant
pub mod Routes
pub mod Laws
pub mod Checks
mod Tests
use mathlib.Core.List.{◌++◌}
use microsvc.Prelude.{
  ℕ, zero, suc, ◌+◌, String, Bool, Option, none, some, or_else, nonempty, List, [], ◌∷◌, lookup,
  ◌⧺◌, show, if◌then◌else◌, ltb, ◌==◌, Json, str, obj, field, end,
}

-- `request.json()` is `none` where the body is no JSON text; the search parameters are those of
-- `new URL(request.url)`.
pub record NextRequest : Type 0 where
  pub headers : List (String × String)
  pub search_params : List (String × String)
  pub body : Option Json

pub record NextResponse : Type 0 where
  pub status : ℕ
  pub body : Json

-- The arguments of a call of `fetch`.
pub record Fetch : Type 0 where
  pub url : String
  pub method : String
  pub headers : List (String × String)
  pub body : Option Json

-- A reply; `body` is what `response.json()` gives, `none` where it throws.
pub record Upstream : Type 0 where
  pub status : ℕ
  pub body : Option Json

-- What a handler uses of its surroundings: the environment, `fetch` (`none` where it throws), the
-- platform's `Response.json`, which `NextResponse.json` calls (`none` where it throws), and the
-- digits that `Math.floor(Math.random() * 16)` gives in turn.
pub record Server : Type 0 where
  pub api_gateway_url : Option String
  pub ai_service_url : Option String
  pub fetch : Fetch → Option Upstream
  pub respond : Json → ℕ → Option NextResponse
  pub random : ℕ → ℕ

abbrev pub Handler : Type 0 → Type 0
Handler A = List Fetch → Option A × List Fetch

infixl 5 ◌>>=◌
abbrev pub ◌>>=◌ : {A B : Type 0} → Handler A → (A → Handler B) → Handler B
◌>>=◌ m f calls =
    let (r, calls') = m calls in elim r [ none ↦ (none, calls') | some a ↦ f a calls' ]

abbrev pub pure : {A : Type 0} → A → Handler A
pure a calls = (some a, calls)

-- A value, or an exception.
abbrev pub need : {A : Type 0} → Option A → Handler A
need o calls = (o, calls)

-- `try { … } catch { … }`
abbrev pub catch : {A : Type 0} → Handler A → Handler A → Handler A
catch handler body calls =
    let (r, calls') = body calls in elim r [ none ↦ handler calls' | some a ↦ (some a, calls') ]

abbrev pub fetch : Server → Fetch → Handler Upstream
fetch sv f calls = (sv.fetch f, calls ++ f ∷ [])

-- `NextResponse.json(data, { status })`
abbrev pub reply : Server → Json → ℕ → Handler NextResponse
reply sv v status = need (sv.respond v status)

abbrev pub message : String → Json
message text = obj (field "message" (str text) end)

-- The `catch` block of every route but those of the assistant.
abbrev pub internal_error : Server → Handler NextResponse
internal_error sv = reply sv (message "Internal server error") 500

abbrev pub gateway : Server → String
gateway sv = or_else (nonempty sv.api_gateway_url) "http://localhost:8080"

abbrev pub auth_header : NextRequest → Option String
auth_header req = lookup "authorization" req.headers

abbrev pub content_type : String × String
content_type = ("Content-Type", "application/json")

-- `...(authHeader && { 'Authorization': authHeader })`
abbrev pub spread_auth : Option String → List (String × String)
spread_auth header = elim (nonempty header) [
  | none ↦ []
  | some value ↦ ("Authorization", value) ∷ []
]

abbrev pub standard_headers : Option String → List (String × String)
standard_headers header = content_type ∷ spread_auth header

abbrev hex_digit : ℕ → String
hex_digit d =
    if ltb d 10
    then show d
    else if d == 10
    then "a"
    else if d == 11
    then "b"
    else if d == 12
    then "c"
    else if d == 13
    then "d"
    else if d == 14
    then "e"
    else "f"

-- `Array.from({ length }, () => ….toString(16)).join('')`, from the given throw on
pub hex_digits : Server → ℕ → ℕ → String
hex_digits sv zero from = ""
hex_digits sv (suc n) from = hex_digit (sv.random from) ⧺ hex_digits sv n (from + 1)

pub generate_trace_id : Server → String
unfolding hex_digits
generate_trace_id sv = hex_digits sv 32 0

pub generate_span_id : Server → String
unfolding hex_digits
generate_span_id sv = hex_digits sv 16 32

unfoldable pub create_trace_parent : Server → String
unfolding generate_trace_id generate_span_id
create_trace_parent sv = "00-" ⧺ generate_trace_id sv ⧺ "-" ⧺ generate_span_id sv ⧺ "-01"
