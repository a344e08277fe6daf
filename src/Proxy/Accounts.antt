-- ===== src/Proxy/Accounts.antt =====
-- frontend/src/app/api/accounts: the routes of accounts.
use microsvc.Prelude.{String, none, some, [], ◌∷◌, ◌⧺◌, serialize}
use mathlib.Core.List.{◌++◌}
use microsvc.Proxy.{
  Server, NextRequest, NextResponse, Handler, catch, fetch, need, reply, internal_error, gateway,
  auth_header, standard_headers, create_trace_parent, ◌>>=◌,
}

-- `GET` of route.ts
unfoldable pub list_accounts : Server → NextRequest → Handler NextResponse
list_accounts sv request = catch (internal_error sv) do
  let header = auth_header request
  response ← fetch sv (record {
    url = gateway sv ⧺ "/api/accounts?" ⧺ serialize request.search_params;
    method = "GET";
    headers = standard_headers header ++ ("traceparent", create_trace_parent sv) ∷ [];
    body = none;
  })
  answer ← need response.body
  reply sv answer response.status

-- `POST` of route.ts
unfoldable pub create_account : Server → NextRequest → Handler NextResponse
create_account sv request = catch (internal_error sv) do
  let header = auth_header request
  body ← need request.body
  response ← fetch sv (record {
    url = gateway sv ⧺ "/api/accounts";
    method = "POST";
    headers = standard_headers header ++ ("traceparent", create_trace_parent sv) ∷ [];
    body = some body;
  })
  answer ← need response.body
  reply sv answer response.status

-- search/route.ts
unfoldable pub search_accounts : Server → NextRequest → Handler NextResponse
search_accounts sv request = catch (internal_error sv) do
  let header = auth_header request
  response ← fetch sv (record {
    url = gateway sv ⧺ "/api/accounts/search?" ⧺ serialize request.search_params;
    method = "GET";
    headers = standard_headers header;
    body = none;
  })
  answer ← need response.body
  reply sv answer response.status

-- summary/route.ts
unfoldable pub account_summary : Server → NextRequest → Handler NextResponse
account_summary sv request = catch (internal_error sv) do
  let header = auth_header request
  response ← fetch sv (record {
    url = gateway sv ⧺ "/api/accounts/summary";
    method = "GET";
    headers = standard_headers header;
    body = none;
  })
  answer ← need response.body
  reply sv answer response.status

-- `GET` of [id]/route.ts
unfoldable pub get_account : Server → NextRequest → String → Handler NextResponse
get_account sv request id = catch (internal_error sv) do
  let header = auth_header request
  response ← fetch sv (record {
    url = gateway sv ⧺ "/api/accounts/" ⧺ id;
    method = "GET";
    headers = standard_headers header;
    body = none;
  })
  answer ← need response.body
  reply sv answer response.status

-- `PUT` of [id]/route.ts
unfoldable pub update_account : Server → NextRequest → String → Handler NextResponse
update_account sv request id = catch (internal_error sv) do
  let header = auth_header request
  body ← need request.body
  response ← fetch sv (record {
    url = gateway sv ⧺ "/api/accounts/" ⧺ id;
    method = "PUT";
    headers = standard_headers header;
    body = some body;
  })
  answer ← need response.body
  reply sv answer response.status

-- `DELETE` of [id]/route.ts
unfoldable pub delete_account : Server → NextRequest → String → Handler NextResponse
delete_account sv request id = catch (internal_error sv) do
  let header = auth_header request
  response ← fetch sv (record {
    url = gateway sv ⧺ "/api/accounts/" ⧺ id;
    method = "DELETE";
    headers = standard_headers header;
    body = none;
  })
  answer ← need response.body
  reply sv answer response.status

-- [id]/balance/route.ts
unfoldable pub account_balance : Server → NextRequest → String → Handler NextResponse
account_balance sv request id = catch (internal_error sv) do
  let header = auth_header request
  response ← fetch sv (record {
    url = gateway sv ⧺ "/api/accounts/" ⧺ id ⧺ "/balance";
    method = "GET";
    headers = standard_headers header;
    body = none;
  })
  answer ← need response.body
  reply sv answer response.status

-- [id]/export-statement/route.ts
unfoldable pub export_statement : Server → NextRequest → String → Handler NextResponse
export_statement sv request id = catch (internal_error sv) do
  let header = auth_header request
  response ← fetch sv (record {
    url = gateway sv ⧺ "/api/accounts/" ⧺ id ⧺ "/export-statement";
    method = "POST";
    headers = standard_headers header;
    body = none;
  })
  answer ← need response.body
  reply sv answer response.status

-- [id]/status/route.ts
unfoldable pub update_account_status : Server → NextRequest → String → Handler NextResponse
update_account_status sv request id = catch (internal_error sv) do
  let header = auth_header request
  body ← need request.body
  response ← fetch sv (record {
    url = gateway sv ⧺ "/api/accounts/" ⧺ id ⧺ "/status";
    method = "PATCH";
    headers = standard_headers header;
    body = some body;
  })
  answer ← need response.body
  reply sv answer response.status

-- [id]/transactions/route.ts
unfoldable pub account_transactions : Server → NextRequest → String → Handler NextResponse
account_transactions sv request id = catch (internal_error sv) do
  let header = auth_header request
  response ← fetch sv (record {
    url = gateway sv ⧺ "/api/accounts/" ⧺ id ⧺ "/transactions?" ⧺ serialize request.search_params;
    method = "GET";
    headers = standard_headers header;
    body = none;
  })
  answer ← need response.body
  reply sv answer response.status

-- [id]/transactions/summary/route.ts
unfoldable pub account_transaction_summary : Server → NextRequest → String → Handler NextResponse
account_transaction_summary sv request id = catch (internal_error sv) do
  let header = auth_header request
  response ← fetch sv (record {
    url = gateway sv ⧺ "/api/accounts/" ⧺ id ⧺ "/transactions/summary";
    method = "GET";
    headers = standard_headers header;
    body = none;
  })
  answer ← need response.body
  reply sv answer response.status
