-- ===== src/Proxy/Users.antt =====
-- frontend/src/app/api/users: the routes of users. Logging in, registering and the two checks go
-- without a token.
use microsvc.Prelude.{nonempty, lookup, none, some, [], ◌∷◌, ◌⧺◌}
use microsvc.Proxy.{
  Server, NextRequest, NextResponse, Handler, catch, fetch, need, reply, internal_error, gateway,
  auth_header, content_type, standard_headers, create_trace_parent, message, ◌>>=◌,
}

-- login/route.ts
unfoldable pub login : Server → NextRequest → Handler NextResponse
login sv request = catch (internal_error sv) do
  body ← need request.body
  response ← fetch sv (record {
    url = gateway sv ⧺ "/api/users/login";
    method = "POST";
    headers = content_type ∷ ("traceparent", create_trace_parent sv) ∷ [];
    body = some body;
  })
  answer ← need response.body
  reply sv answer response.status

-- register/route.ts
unfoldable pub register : Server → NextRequest → Handler NextResponse
register sv request = catch (internal_error sv) do
  body ← need request.body
  response ← fetch sv (record {
    url = gateway sv ⧺ "/api/users/register";
    method = "POST";
    headers = content_type ∷ [];
    body = some body;
  })
  answer ← need response.body
  reply sv answer response.status

-- profile/route.ts
unfoldable pub profile : Server → NextRequest → Handler NextResponse
profile sv request = catch (internal_error sv) do
  let header = auth_header request
  response ← fetch sv (record {
    url = gateway sv ⧺ "/api/users/profile";
    method = "GET";
    headers = standard_headers header;
    body = none;
  })
  answer ← need response.body
  reply sv answer response.status

-- check-username/route.ts: a name that is missing or empty is refused here, with 400.
unfoldable pub check_username : Server → NextRequest → Handler NextResponse
check_username sv request =
    catch (internal_error sv) (elim (nonempty (lookup "username" request.search_params)) [
      | none ↦ reply sv (message "Username parameter is required") 400
      | some username ↦ do
        response ← fetch sv (record {
          url = gateway sv ⧺ "/api/users/check-username?username=" ⧺ username;
          method = "GET";
          headers = content_type ∷ [];
          body = none;
        })
        answer ← need response.body
        reply sv answer response.status
    ])

-- check-email/route.ts: a name that is missing or empty is refused here, with 400.
unfoldable pub check_email : Server → NextRequest → Handler NextResponse
check_email sv request =
    catch (internal_error sv) (elim (nonempty (lookup "email" request.search_params)) [
      | none ↦ reply sv (message "Email parameter is required") 400
      | some email ↦ do
        response ← fetch sv (record {
          url = gateway sv ⧺ "/api/users/check-email?email=" ⧺ email;
          method = "GET";
          headers = content_type ∷ [];
          body = none;
        })
        answer ← need response.body
        reply sv answer response.status
    ])
