-- ===== src/Client/Laws.antt =====
-- What the client promises of every one of its verbs.
use microsvc.Prelude.{
  String, Bool, true, false, none, some, ◌∷◌, ◌≡◌, ◌≢◌, ◌↔◌, ◌⊎◌, refl, inl, inr, arith, lookup,
  lookup-insert, insert, Option-cases, eq_refl, eq_iff, ◌⧺◌, nonempty, str, if◌then◌else◌,
}
use microsvc.Web.{Cookies, CookieLaws, World, Config, Response, Error, Reply, replied, failed}
use microsvc.Token.{get_token, remove_token, token_key}
use microsvc.Client.Errors.{api_error, one_error}
use microsvc.Client.Errors.Messages.{IsFailure, handle_error-IsFailure, handle_error_unanswered}
use microsvc.Client.{on_error, on_request, on_unauthorized, get_current_trace_context, has_status}
use microsvc.Client.Calls.{
  Call, run, config_of, request_of, reply_to, sent_on, run-replied, run-failed,
}

pub Reply-cases : (r : Reply) → ((s : Response) × (r ≡ replied s)) ⊎ ((e : Error) × (r ≡ failed e))
Reply-cases (replied s) = inl (s, refl)
Reply-cases (failed e) = inr (e, refl)

abbrev is_unauthorized : Reply → Bool
is_unauthorized (replied r) = false
is_unauthorized (failed e) = has_status 401 e.response

network_message-ne : ◌≢◌ {A = String} "Network error. Please check your connection." ""
network_message-ne = ground (arith, eq_iff "Network error. Please check your connection." "")

module _ {Jar : Type 0} ⦃C : Cookies Jar⦄ where
  on_error-sent : (e : Error) (w : World Jar) → (on_error e w).1.sent ≡ w.sent
  unfolding on_error remove_token
  on_error-sent e w = ground arith

  -- Every call sends exactly one request, through the client's defaults; the interceptor leaves
  -- its method, its address and its body as they are.
  pub run-sent :
      (call : Call) (w : World Jar)
      → ((run call w).1.sent ≡ request_of call w ∷ w.sent)
        × ((on_request (config_of call) w).method ≡ (config_of call).method)
        × ((on_request (config_of call) w).url ≡ (config_of call).url)
        × ((on_request (config_of call) w).body ≡ (config_of call).body)
  unfolding on_request
  run-sent call w = elim (Reply-cases (reply_to call w)) [
    | inl (r, h) ↦ ground (arith, run-replied call w r h)
    | inr (e, h) ↦ ground (arith, run-failed call w e h, on_error-sent e (sent_on call w))
  ]

  -- With a token in the cookie, every request carries it as a bearer token, which replaces
  -- whatever the caller gave under that name.
  pub on_request-authorization :
      (c : Config) (w : World Jar) (token : String)
      → get_token w ≡ some token
      → lookup "Authorization" (on_request c w).headers ≡ some ("Bearer " ⧺ token)
  unfolding on_request
  on_request-authorization c w token h =
      let bearer_token = "Bearer " ⧺ token in
      let with_token = insert "Authorization" bearer_token c.headers in
      elim (Option-cases (nonempty (get_current_trace_context w))) [
        | inl untraced ↦ rw (h, untraced, lookup-insert)
        | inr (context, traced) ↦ ground (
          arith,
          eq_iff "traceparent" "Authorization",
          lookup-insert "traceparent" "Authorization" context with_token,
          lookup-insert "Authorization" "Authorization" bearer_token c.headers,
          eq_refl "Authorization",
        )
      ]

  -- A call succeeds exactly when the HTTP library accepts a reply to it.
  pub run_success_iff :
      (call : Call) (w : World Jar)
      → ((run call w).0.success ≡ true) ↔ ((r : Response) × (reply_to call w ≡ replied r))
  run_success_iff call w = elim (Reply-cases (reply_to call w)) [
    | inl (r, h) ↦ (λ _. (r, h), λ _. ground (arith, run-replied call w r h))
    | inr (e, h) ↦ (
      λ s.
          ground
            (arith, run-failed call w e h, handle_error-IsFailure (on_error e (sent_on call w)).0),
      λ (r, g). cc,
    )
  ]

  -- After a first 401 of a request, one whose configuration is there and not marked as retried,
  -- the token is gone, a page in a browser is sent to the login, and the caller is told of a
  -- failure, whichever verb of the client made the request.
  pub run_unauthorized :
      CookieLaws C
      → (call : Call) (w : World Jar) (e : Error) (c : Config) (r : Response)
      → reply_to call w ≡ failed e
      → e.response ≡ some r
      → r.status ≡ 401
      → e.config ≡ some c
      → c.retry ≡ false
      → (get_token (run call w).1 ≡ none)
        × ((run call w).1.href ≡ (if w.has_window then some "/login" else w.href))
        × IsFailure (run call w).0
  unfolding get_token on_error on_unauthorized remove_token
  run_unauthorized laws call w e c r h he hr hc fresh = ground (
    arith,
    run-failed call w e h,
    handle_error-IsFailure (on_error e (sent_on call w)).0,
    laws.get-remove (token_key w) w.jar,
  )

  -- A call whose outcome is not an error with the status 401 leaves the cookies and the address
  -- of the page alone.
  pub run_keeps_session :
      (call : Call) (w : World Jar)
      → is_unauthorized (reply_to call w) ≡ false
      → ((run call w).1.jar ≡ w.jar) × ((run call w).1.href ≡ w.href)
  unfolding on_error
  run_keeps_session call w h = elim (Reply-cases (reply_to call w)) [
    | inl (r, g) ↦ ground (arith, run-replied call w r g)
    | inr (e, g) ↦ ground (arith, run-failed call w e g)
  ]

  -- A call that fails without a response, and not by its time limit, is reported as a network
  -- error with a fixed text.
  pub run_unreachable :
      (call : Call) (w : World Jar) (e : Error)
      → reply_to call w ≡ failed e
      → e.response ≡ none
      → e.code ≢ some "ECONNABORTED"
      → (run call w).0
        ≡ api_error
            (str "Network error. Please check your connection.")
            (one_error (str "Network error. Please check your connection."))
  unfolding on_error
  run_unreachable call w e h gone code = ground (
    arith,
    run-failed call w e h,
    handle_error_unanswered (record e { message = "Network error. Please check your connection." })
        code gone,
    network_message-ne,
  )
