-- ===== src/Session/Unauthorized.antt =====
-- A session whose token is refused in the middle: the client of the pages and the provider do not
-- talk to each other, and meet only in the cookie.
use microsvc.Prelude.{false, none, some, ◌≡◌, arith}
use microsvc.Web.{Cookies, CookieLaws, Config, Response, Error, failed}
use microsvc.Token.{Platform, get_token, remove_token}
use microsvc.Client.Calls.{Call, run, reply_to}
use microsvc.Client.Laws.{run_unauthorized}
use microsvc.Session.{Session, refresh_token, logout}

-- The session once a page has made a call.
abbrev pub after_call : {Jar : Type 0} ⦃C : Cookies Jar⦄ → Call → Session Jar → Session Jar
after_call call s = record s { world = (run call s.world).1 }

module _ {Jar : Type 0} ⦃C : Cookies Jar⦄ (p : Platform) where
  -- When the server refuses a call of a page with a first 401, the token is gone at once, but the
  -- provider keeps its user and goes on calling somebody authenticated; its next refresh then
  -- reports failure without asking the server, and ends the session.
  pub refresh_token_unauthorized :
      CookieLaws C
      → (call : Call) (s : Session Jar) (e : Error) (c : Config) (r : Response)
      → reply_to call s.world ≡ failed e
      → e.response ≡ some r
      → r.status ≡ 401
      → e.config ≡ some c
      → c.retry ≡ false
      → let s' = after_call call s in
        let (refreshed, s'') = refresh_token p s' in
        (get_token s'.world ≡ none)
        × (s'.user ≡ s.user)
        × (s'.is_authenticated ≡ s.is_authenticated)
        × (refreshed ≡ false)
        × (s''.world.sent ≡ s'.world.sent)
        × (s''.user ≡ none)
        × (s''.is_authenticated ≡ false)
        × (s''.world.href ≡ some "/login")
  unfolding refresh_token logout remove_token
  refresh_token_unauthorized laws call s e c r h he hr hc fresh =
      let gone = (run_unauthorized laws call s.world e c r h he hr hc fresh).0 in
      ground (arith, gone)
