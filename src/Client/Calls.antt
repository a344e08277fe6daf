-- ===== src/Client/Calls.antt =====
-- The five verbs of the client as one type of calls, for statements about all of them, and the one
-- way in which each of them runs.
use microsvc.Prelude.{String, List, [], ◌∷◌, ◌≡◌, arith}
use microsvc.Web.{
  Cookies, World, Body, empty, Config, Response, Error, Reply, replied, failed, Request, LogEntry,
  log,
}
use microsvc.Token.{get_token, remove_token}
use microsvc.Token.Laws.{get_token-log}
use microsvc.Prelude.Lists.{length}
use microsvc.Client.Errors.{ApiResponse, api_ok, handle_error}
use microsvc.Client.{
  get, post, put, delete, patch, config, get_current_trace_context, on_request, on_error,
}

pub data Call : Type 0 where
  getting : String → List (String × String) → Call
  posting : String → Body → List (String × String) → Call
  putting patching : String → Body → Call
  deleting : String → Call

abbrev pub config_of : Call → Config
config_of (getting url headers) = config "GET" url empty headers
config_of (posting url body headers) = config "POST" url body headers
config_of (putting url body) = config "PUT" url body []
config_of (patching url body) = config "PATCH" url body []
config_of (deleting url) = config "DELETE" url empty []

module _ {Jar : Type 0} ⦃C : Cookies Jar⦄ where
  abbrev pub run : Call → World Jar → ApiResponse × World Jar
  run (getting url headers) w = get url headers w
  run (posting url body headers) w = post url body headers w
  run (putting url body) w = put url body w
  run (patching url body) w = patch url body w
  run (deleting url) w = delete url w

  -- The request that a call sends, and the reply to it.
  abbrev pub request_of : Call → World Jar → Request
  request_of call w = record { through = w.client; config = on_request (config_of call) w }

  abbrev pub reply_to : Call → World Jar → Reply
  reply_to call w = w.network (length w.sent) (request_of call w)

  -- Two worlds that differ in their log lines alone.
  pub record SameButLog (v w : World Jar) : Type 0 where
    pub jar : v.jar ≡ w.jar
    pub href : v.href ≡ w.href
    pub sent : v.sent ≡ w.sent
    pub client : v.client ≡ w.client
    pub cookie_name : v.cookie_name ≡ w.cookie_name
    pub has_window : v.has_window ≡ w.has_window

  abbrev pub sent_on : Call → World Jar → World Jar
  sent_on call w = record w { sent = request_of call w ∷ w.sent }

  -- The lines of the log have no influence on a request.
  pub request_of-log :
      (call : Call) (entry : LogEntry) (w : World Jar)
      → request_of call (log entry w) ≡ request_of call w
  unfolding on_request get_current_trace_context
  request_of-log call entry w = rw (get_token-log)

  pub run-replied :
      (call : Call) (w : World Jar) (r : Response)
      → reply_to call w ≡ replied r
      → ((run call w).0 ≡ api_ok r.body) × SameButLog (run call w).1 (sent_on call w)
  unfolding get post put delete patch get_current_trace_context get_token on_error remove_token
  run-replied (getting url headers) w r h = ground arith
  run-replied _ w r h = ground arith

  pub run-failed :
      (call : Call) (w : World Jar) (e : Error)
      → reply_to call w ≡ failed e
      → let (e', v) = on_error e (sent_on call w) in
        ((run call w).0 ≡ handle_error e') × SameButLog (run call w).1 v
  unfolding get post put delete patch get_current_trace_context get_token on_error remove_token
  run-failed (getting url headers) w e h = ground arith
  run-failed _ w e h = ground arith

  -- A call leaves the server as it is.
  pub run-network : (call : Call) (w : World Jar) → (run call w).1.network ≡ w.network
  unfolding get post put delete patch get_current_trace_context get_token on_error remove_token
  run-network (getting url headers) w = ground arith
  run-network _ w = ground arith
