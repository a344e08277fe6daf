-- ===== src/Client/Tests.antt =====
-- The theorems of the client on a page of the samples.
use microsvc.Prelude.{
  String, true, Option, none, some, [], ◌∷◌, ◌≡◌, ◌≢◌, refl, ◌↔◌, arith, lookup, insert, obj, end,
}
use microsvc.Web.{Config, empty, Response, replied, failed}
use microsvc.Token.{get_token, token_key}
use microsvc.Client.Errors.Messages.{IsFailure}
use microsvc.Client.Calls.{Call, getting, run, reply_to}
use microsvc.Client.{on_request, get_current_trace_context, config}
use microsvc.Client.Laws.{run_success_iff, run_unauthorized}
use microsvc.Samples.{cookies, cookie_laws, page, refuse, accept, error_of}

abbrev pub listing : Call
listing = getting "/api/accounts" []

abbrev pub sent_config : Config
sent_config = config "GET" "/api/accounts" empty (("Authorization", "Bearer h.e30.s") ∷ [])

pub listing_refused : reply_to listing (page (refuse 401)) ≡ failed (error_of 401 sent_config)
unfolding on_request get_token token_key get_current_trace_context lookup insert
listing_refused = refl

run_unauthorized_example :
    (get_token (run listing (page (refuse 401))).1 ≡ none)
    × ((run listing (page (refuse 401))).1.href ≡ some "/login")
    × IsFailure (run listing (page (refuse 401))).0
run_unauthorized_example =
    run_unauthorized cookie_laws listing (page (refuse 401)) (error_of 401 sent_config) sent_config
      (record { status = 401; body = obj end }) listing_refused refl refl refl refl

run_success_iff_example :
    let w = page (accept (obj end)) in
    ((run listing w).0.success ≡ true) ↔ ((r : Response) × (reply_to listing w ≡ replied r))
run_success_iff_example = run_success_iff listing (page (accept (obj end)))

no_timeout : ◌≢◌ {A = Option String} none (some "ECONNABORTED")
no_timeout = ground arith
