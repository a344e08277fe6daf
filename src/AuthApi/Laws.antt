-- ===== src/AuthApi/Laws.antt =====
-- What the calls of `AuthAPI` do to the page, by the reply that they get.
use microsvc.Prelude.{String, true, false, none, some, ◌≡◌, refl, arith, ◌∷◌, [], Json}
use microsvc.Prelude.Lists.{length}
use microsvc.Web.{
  Cookies, World, Config, Response, Error, Reply, replied, failed, Request, redirect, json, empty,
}
use microsvc.Token.{remove_token}
use microsvc.Client.{config, resolved}
use microsvc.AuthApi.{
  register, auth_instance, auth_ok, auth_failed, login, get_profile, on_request, on_error,
  on_unauthorized, profile_failed, is_null, settle, auth_result, body_or,
}

abbrev pub register_config : Json → Config
register_config v = config "POST" "/api/users/register" (json v) []

abbrev pub login_config : Json → Config
login_config credentials = config "POST" "/api/users/login" (json credentials) []

abbrev pub profile_config : Config
profile_config = config "GET" "/api/users/profile" empty []

pub auth_failed-refused :
    (text : String) (e : Error)
    → ((auth_failed text e).success ≡ false) × ((auth_failed text e).result ≡ none)
unfolding auth_failed
auth_failed-refused text e = (refl, refl)

module _ {Jar : Type 0} ⦃C : Cookies Jar⦄ where
  abbrev pub request_of : Config → World Jar → Request
  request_of c w = record { through = auth_instance; config = on_request c w }

  abbrev pub reply_to : Config → World Jar → Reply
  reply_to c w = w.network (length w.sent) (request_of c w)

  abbrev pub sent_on : Config → World Jar → World Jar
  sent_on c w = record w { sent = request_of c w ∷ w.sent }

  pub login-replied :
      (v : Json) (w : World Jar) (r : Response)
      → reply_to (login_config v) w ≡ replied r
      → is_null r.body ≡ false
      → login v w ≡ (auth_ok "Login successful" r.body, sent_on (login_config v) w)
  unfolding login
  login-replied v w r h full = ground arith

  pub login-failed :
      (v : Json) (w : World Jar) (e : Error)
      → reply_to (login_config v) w ≡ failed e
      → let (e', w') = on_error e (sent_on (login_config v) w) in
        login v w ≡ (auth_failed "Login failed" e', w')
  unfolding login
  login-failed v w e h = ground arith

  pub get_profile-replied :
      (w : World Jar) (r : Response)
      → reply_to profile_config w ≡ replied r
      → get_profile w ≡ (r.body, sent_on profile_config w)
  unfolding get_profile
  get_profile-replied w r h = ground arith

  pub get_profile-failed :
      (w : World Jar) (e : Error)
      → reply_to profile_config w ≡ failed e
      → let (e', w') = on_error e (sent_on profile_config w) in
        get_profile w ≡ (profile_failed e', w')
  unfolding get_profile
  get_profile-failed w e h = ground arith

  -- A first 401 on the profile: the token goes, the page goes to the login, the error is reported.
  pub get_profile-unauthorized :
      (w : World Jar) (e : Error) (c : Config) (r : Response)
      → reply_to profile_config w ≡ failed e
      → e.response ≡ some r
      → r.status ≡ 401
      → e.config ≡ some c
      → c.retry ≡ false
      → w.has_window ≡ true
      → get_profile w
        ≡ (profile_failed e, redirect "/login" (remove_token (sent_on profile_config w)))
  unfolding get_profile on_error on_unauthorized remove_token
  get_profile-unauthorized w e c r h he hr hc fresh hw = ground arith

-- A registration sends its data, once.
pub register-sent :
    {Jar : Type 0} ⦃C : Cookies Jar⦄ (v : Json) (w : World Jar)
    → (register v w).1.sent ≡ request_of (register_config v) w ∷ w.sent
unfolding register on_error on_unauthorized remove_token
register-sent v w = ground arith

module _ {Jar : Type 0} ⦃C : Cookies Jar⦄ where
  -- A login and a profile request, as a request that leaves and a reply that is settled.
  pub login-sent_on :
      (credentials : Json) (w : World Jar)
      → let (o, w') =
          settle (reply_to (login_config credentials) w) (sent_on (login_config credentials) w) in
        login credentials w ≡ (auth_result "Login successful" "Login failed" o, w')
  unfolding login
  login-sent_on credentials w = refl

  pub get_profile-sent_on :
      (w : World Jar)
      → let (o, w') = settle (reply_to profile_config w) (sent_on profile_config w) in
        get_profile w ≡ (body_or profile_failed o, w')
  unfolding get_profile
  get_profile-sent_on w = refl

  pub settle-replied : (r : Response) (w : World Jar) → settle (replied r) w ≡ (resolved r, w)
  unfolding settle
  settle-replied r w = refl
