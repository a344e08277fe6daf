-- ===== src/Proxy/Tests.antt =====
-- The theorems of the routes on a server of the samples.
use microsvc.Prelude.{ℕ, Option, none, some, [], ◌∷◌, ◌≡◌, refl, arith, Json, str, obj, field, end}
use microsvc.Proxy.{Fetch, Upstream}
use microsvc.Proxy.Routes.{handle, spec_of, list_accounts, get_account}
use microsvc.Proxy.Laws.{by_table, fetch_for, IsSendable, handle-by_table, handle_relays}
use microsvc.Samples.{server, respond_laws, request}

abbrev answer : ℕ → Fetch → Option Upstream
answer status f = some (record { status = status; body = some (obj end) })

abbrev down : Fetch → Option Upstream
down f = none

not_found-IsSendable : IsSendable 404
not_found-IsSendable = ground arith

handle-by_table_example :
    handle (server down) list_accounts (request none []) []
    ≡ by_table (server down) (spec_of list_accounts) (request none []) []
handle-by_table_example = handle-by_table (server down) list_accounts (request none []) []

handle_relays_example :
    let sv = server (answer 404) in
    handle sv (get_account "7") (request none []) [] ≡ (
      some (record { status = 404; body = obj end }),
      fetch_for sv (spec_of (get_account "7")) (request none []) none ∷ [],
    )
handle_relays_example =
    handle_relays (server (answer 404)) (respond_laws (answer 404)) (get_account "7")
      (request none []) [] none (record { status = 404; body = some (obj end) }) (obj end) refl refl
      refl refl not_found-IsSendable

abbrev question : Json
question = obj (field "message" (str "hello") end)
