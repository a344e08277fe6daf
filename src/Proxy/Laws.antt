-- ===== src/Proxy/Laws.antt =====
-- Every route of the gateway does what its row in the table says, relays the answer, and turns
-- every failure into a 500.
use mathlib.Core.List.{◌++◌}
use microsvc.Prelude.{
  ℕ, String, Bool, true, Option, none, some, List, [], ◌∷◌, ◌≡◌, ◌≢◌, ◌≤◌, ◌⊎◌, inl, inr, is_some,
  ◌⧺◌, arith, if◌then◌else◌, serialize, Json, nonempty, lookup, or_else,
}
use text.Mathlib.TextLemmas.{append_assoc}
use microsvc.Proxy.{
  Server, NextRequest, NextResponse, Fetch, Upstream, gateway, auth_header, content_type,
  spread_auth, message, create_trace_parent,
}
use microsvc.Proxy.Routes.{Route, handle, Spec, spec_of}

-- What the platform documents of `Response.json`: it makes a response of any status from 200 to
-- 599, but for those that admit no body.
pub record RespondLaws (sv : Server) : Type 0 where
  pub respond_ok :
      (v : Json) (status : ℕ)
      → 200 ≤ status
      → status ≤ 599
      → status ≢ 204
      → status ≢ 205
      → status ≢ 304
      → sv.respond v status ≡ some (record { status = status; body = v })

abbrev when : Bool → List (String × String) → List (String × String)
when b hs = if b then hs else []

-- The body to hand on; the outer `none` where it is wanted and cannot be read.
abbrev body_for : Spec → NextRequest → Option (Option Json)
body_for s request =
    if s.with_body then (elim request.body [ none ↦ none | some v ↦ some (some v) ]) else some none

-- Why a request is refused, if it is: a parameter that is needed is missing or empty.
abbrev pub refusal_of : Spec → NextRequest → Option String
refusal_of s request = elim s.needed [
  | none ↦ none
  | some n ↦ elim (nonempty (lookup n.name request.search_params)) [
    | none ↦ some n.text
    | some value ↦ none
  ]
]

-- What ends the address after its path: the parameters of the request, one of them, or nothing.
abbrev address_of : Server → Spec → NextRequest → String
address_of sv s request = elim s.needed [
  | none ↦
      if s.with_search
      then gateway sv ⧺ s.path ⧺ serialize request.search_params
      else gateway sv ⧺ s.path
  | some n ↦ gateway sv ⧺ s.path ⧺ or_else (nonempty (lookup n.name request.search_params)) ""
]

-- The request that a row of the table asks for.
abbrev pub fetch_for : Server → Spec → NextRequest → Option Json → Fetch
fetch_for sv s request body = record {
  url = address_of sv s request;
  method = s.method;
  headers =
      content_type
      ∷ (when s.with_auth (spread_auth (auth_header request))
          ++ when s.with_trace (("traceparent", create_trace_parent sv) ∷ []));
  body = body;
}

abbrev error_reply : Server → Option NextResponse
error_reply sv = sv.respond (message "Internal server error") 500

abbrev or_error : Server → Option NextResponse → Option NextResponse
or_error sv none = error_reply sv
or_error sv (some r) = some r

-- The answer to a request that was sent.
abbrev relayed : Server → Option Upstream → Option NextResponse
relayed sv none = error_reply sv
relayed sv (some u) = elim u.body [
  | none ↦ error_reply sv
  | some v ↦ or_error sv (sv.respond v u.status)
]

-- What a row of the table does, with no monad: a request without the parameter that is needed is
-- refused with a 400; nothing is sent then, and where the body cannot be read; and else exactly one
-- request.
abbrev pub by_table : Server → Spec → NextRequest → List Fetch → Option NextResponse × List Fetch
by_table sv s request calls = elim (refusal_of s request) [
  | some text ↦ (or_error sv (sv.respond (message text) 400), calls)
  | none ↦ elim (body_for s request) [
    | none ↦ (error_reply sv, calls)
    | some body ↦ let f = fetch_for sv s request body in (relayed sv (sv.fetch f), calls ++ f ∷ [])
  ]
]

-- Every one of the 28 handlers of app/api that hand a request on to the gateway does what its row in
-- the table of routes says: it answers as the row does, and sends the request of the row, or none.
pub handle-by_table :
    (sv : Server) (route : Route) (request : NextRequest) (calls : List Fetch)
    → handle sv route request calls ≡ by_table sv (spec_of route) request calls
unfolding handle
handle-by_table sv Route.list_accounts request calls = ground arith
handle-by_table sv (Route.account_transactions id) request calls =
    let search = serialize request.search_params in
    ground (
      arith,
      append_assoc "/api/accounts/" (id ⧺ "/transactions?") search,
      append_assoc id "/transactions?" search,
    )
handle-by_table sv _ request calls = ground arith

-- A status that `Response.json` takes.
pub record IsSendable (status : ℕ) : Type 0 where
  pub at_least : 200 ≤ status
  pub at_most : status ≤ 599
  pub not_204 : status ≢ 204
  pub not_205 : status ≢ 205
  pub not_304 : status ≢ 304

abbrev pub server_error : NextResponse
server_error = record { status = 500; body = message "Internal server error" }

module _ (sv : Server) (laws : RespondLaws sv) where
  respond_sendable :
      (v : Json) (status : ℕ)
      → IsSendable status
      → sv.respond v status ≡ some (record { status = status; body = v })
  respond_sendable v status s =
      laws.respond_ok v status s.at_least s.at_most s.not_204 s.not_205 s.not_304

  error_reply-eq : error_reply sv ≡ some server_error
  error_reply-eq =
      laws.respond_ok _ 500 (omega arith) (omega arith) (omega arith) (omega arith) (omega arith)

  -- A JSON answer of the gateway whose status a response can carry reaches the caller with its
  -- status and its body unchanged, after exactly one request, which is the one of the table,
  -- provided that a body that the route wants can be read and a parameter that it needs is given.
  pub handle_relays :
      (route : Route) (request : NextRequest) (calls : List Fetch) (body : Option Json)
      (u : Upstream) (v : Json)
      → refusal_of (spec_of route) request ≡ none
      → body_for (spec_of route) request ≡ some body
      → sv.fetch (fetch_for sv (spec_of route) request body) ≡ some u
      → u.body ≡ some v
      → IsSendable u.status
      → handle sv route request calls ≡ (
        some (record { status = u.status; body = v }),
        calls ++ fetch_for sv (spec_of route) request body ∷ [],
      )
  handle_relays route request calls body u v wanted hb hf hv hs =
      ground (arith, handle-by_table sv route request calls, respond_sendable v u.status hs)

  -- A gateway that cannot be reached, or answers with anything but JSON, becomes a 500, whatever
  -- the status of the answer was, provided that a body that the route wants can be read and a
  -- parameter that it needs is given.
  pub handle_unanswered :
      (route : Route) (request : NextRequest) (calls : List Fetch) (body : Option Json)
      → refusal_of (spec_of route) request ≡ none
      → body_for (spec_of route) request ≡ some body
      → (sv.fetch (fetch_for sv (spec_of route) request body) ≡ none)
        ⊎ ((u : Upstream) × (sv.fetch (fetch_for sv (spec_of route) request body) ≡ some u)
            × (u.body ≡ none))
      → handle sv route request calls
        ≡ (some server_error, calls ++ fetch_for sv (spec_of route) request body ∷ [])
  handle_unanswered route request calls body wanted hb (inl down) =
      ground (arith, handle-by_table sv route request calls, error_reply-eq)
  handle_unanswered route request calls body wanted hb (inr (u, hf, hv)) =
      ground (arith, handle-by_table sv route request calls, error_reply-eq)

  -- A request whose body the route wants and that is no JSON text is answered with a 500, and
  -- nothing is sent, where no parameter that the route needs is missing.
  pub handle_unreadable :
      (route : Route) (request : NextRequest) (calls : List Fetch)
      → refusal_of (spec_of route) request ≡ none
      → (spec_of route).with_body ≡ true
      → request.body ≡ none
      → handle sv route request calls ≡ (some server_error, calls)
  handle_unreadable route request calls fine wanted unread =
      ground (arith, handle-by_table sv route request calls, error_reply-eq)

  -- Every one of the routes that hand a request on to the gateway answers every request,
  -- whatever fails on the way.
  pub handle_total :
      (route : Route) (request : NextRequest) (calls : List Fetch)
      → is_some (handle sv route request calls).0 ≡ true
  handle_total route request calls =
      ground (arith, handle-by_table sv route request calls, error_reply-eq)
