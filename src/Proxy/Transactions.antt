-- ===== src/Proxy/Transactions.antt =====
-- frontend/src/app/api/transactions: the routes of transactions.
use microsvc.Prelude.{String, none, some, ◌⧺◌, serialize}
use microsvc.Proxy.{
  Server, NextRequest, NextResponse, Handler, catch, fetch, need, reply, internal_error, gateway,
  auth_header, standard_headers, ◌>>=◌,
}

-- `GET` of route.ts
unfoldable pub list_transactions : Server → NextRequest → Handler NextResponse
list_transactions sv request = catch (internal_error sv) do
  let header = auth_header request
  response ← fetch sv (record {
    url = gateway sv ⧺ "/api/transactions?" ⧺ serialize request.search_params;
    method = "GET";
    headers = standard_headers header;
    body = none;
  })
  answer ← need response.body
  reply sv answer response.status

-- `POST` of route.ts, which goes on to `/create`: the bare path is for `GET` alone
unfoldable pub post_transaction : Server → NextRequest → Handler NextResponse
post_transaction sv request = catch (internal_error sv) do
  let header = auth_header request
  body ← need request.body
  response ← fetch sv (record {
    url = gateway sv ⧺ "/api/transactions/create";
    method = "POST";
    headers = standard_headers header;
    body = some body;
  })
  answer ← need response.body
  reply sv answer response.status

-- create/route.ts
unfoldable pub create_transaction : Server → NextRequest → Handler NextResponse
create_transaction sv request = catch (internal_error sv) do
  let header = auth_header request
  body ← need request.body
  response ← fetch sv (record {
    url = gateway sv ⧺ "/api/transactions/create";
    method = "POST";
    headers = standard_headers header;
    body = some body;
  })
  answer ← need response.body
  reply sv answer response.status

-- deposit/route.ts
unfoldable pub deposit : Server → NextRequest → Handler NextResponse
deposit sv request = catch (internal_error sv) do
  let header = auth_header request
  body ← need request.body
  response ← fetch sv (record {
    url = gateway sv ⧺ "/api/transactions/deposit";
    method = "POST";
    headers = standard_headers header;
    body = some body;
  })
  answer ← need response.body
  reply sv answer response.status

-- withdraw/route.ts
unfoldable pub withdraw : Server → NextRequest → Handler NextResponse
withdraw sv request = catch (internal_error sv) do
  let header = auth_header request
  body ← need request.body
  response ← fetch sv (record {
    url = gateway sv ⧺ "/api/transactions/withdraw";
    method = "POST";
    headers = standard_headers header;
    body = some body;
  })
  answer ← need response.body
  reply sv answer response.status

-- transfer/route.ts
unfoldable pub transfer : Server → NextRequest → Handler NextResponse
transfer sv request = catch (internal_error sv) do
  let header = auth_header request
  body ← need request.body
  response ← fetch sv (record {
    url = gateway sv ⧺ "/api/transactions/transfer";
    method = "POST";
    headers = standard_headers header;
    body = some body;
  })
  answer ← need response.body
  reply sv answer response.status

-- recent/route.ts
unfoldable pub recent_transactions : Server → NextRequest → Handler NextResponse
recent_transactions sv request = catch (internal_error sv) do
  let header = auth_header request
  response ← fetch sv (record {
    url = gateway sv ⧺ "/api/transactions/recent?" ⧺ serialize request.search_params;
    method = "GET";
    headers = standard_headers header;
    body = none;
  })
  answer ← need response.body
  reply sv answer response.status

-- search/route.ts
unfoldable pub search_transactions : Server → NextRequest → Handler NextResponse
search_transactions sv request = catch (internal_error sv) do
  let header = auth_header request
  response ← fetch sv (record {
    url = gateway sv ⧺ "/api/transactions/search?" ⧺ serialize request.search_params;
    method = "GET";
    headers = standard_headers header;
    body = none;
  })
  answer ← need response.body
  reply sv answer response.status

-- summary/route.ts
unfoldable pub transaction_summary : Server → NextRequest → Handler NextResponse
transaction_summary sv request = catch (internal_error sv) do
  let header = auth_header request
  response ← fetch sv (record {
    url = gateway sv ⧺ "/api/transactions/summary";
    method = "GET";
    headers = standard_headers header;
    body = none;
  })
  answer ← need response.body
  reply sv answer response.status

-- [id]/route.ts
unfoldable pub get_transaction : Server → NextRequest → String → Handler NextResponse
get_transaction sv request id = catch (internal_error sv) do
  let header = auth_header request
  response ← fetch sv (record {
    url = gateway sv ⧺ "/api/transactions/" ⧺ id;
    method = "GET";
    headers = standard_headers header;
    body = none;
  })
  answer ← need response.body
  reply sv answer response.status

-- [id]/cancel/route.ts
unfoldable pub cancel_transaction : Server → NextRequest → String → Handler NextResponse
cancel_transaction sv request id = catch (internal_error sv) do
  let header = auth_header request
  response ← fetch sv (record {
    url = gateway sv ⧺ "/api/transactions/" ⧺ id ⧺ "/cancel";
    method = "PATCH";
    headers = standard_headers header;
    body = none;
  })
  answer ← need response.body
  reply sv answer response.status
