-- ===== src/Session/Laws.antt =====
-- What each operation of the provider leaves behind.
use microsvc.Prelude.{
  String, true, false, none, some, ◌≡◌, ◌≢◌, refl, arith, is_some, Json, str, get, find,
  Option-cases, inl, inr, nonempty-some,
}
use microsvc.Web.{Cookies, CookieLaws, World, Config, Response, Error, replied, failed}
use microsvc.Token.{
  Platform, get_token, remove_token, token_key, is_token_expired, get_user_from_token,
}
use microsvc.Client.Laws.{Reply-cases}
use mathlib.Core.Option
use microsvc.AuthApi
use microsvc.AuthApi.Laws.{
  reply_to, login_config, profile_config, sent_on, login-replied, login-failed, get_profile-replied,
  get_profile-failed, get_profile-unauthorized, auth_failed-refused,
}
use microsvc.Token.Laws.{
  get_token-redirect, get_token-set_token, get_token-remove_token, get_user_from_token_of_fresh,
}
use microsvc.AuthApi.{AuthResponse, token_data, profile_failed, is_null}
use microsvc.Session.{
  Session, mounted, user_of, profile_data, usable, login_user, fallback_user, logout, refreshed,
  refresh_token, initialize_auth, login, register, fall_back, with_profile, after_login,
}

-- The provider calls somebody authenticated exactly when it holds a user.
abbrev pub IsCoherent : {Jar : Type 0} → Session Jar → Type 0
IsCoherent s = s.is_authenticated ≡ is_some s.user

is_null-get : (key : String) (body : Json) {v : Json} → get key body ≡ some v → is_null body ≡ false
unfolding get
is_null-get key body e = ground arith

profile_data-failed : (e : Error) → profile_data (profile_failed e) ≡ none
unfolding get find
profile_data-failed e = refl

module _ {Jar : Type 0} ⦃C : Cookies Jar⦄ where
  pub logout-IsCoherent : (s : Session Jar) → IsCoherent (logout s)
  unfolding logout
  logout-IsCoherent s = refl

  pub register-IsCoherent :
      (v : Json) (s : Session Jar) → IsCoherent s → IsCoherent (register v s).1
  unfolding register
  register-IsCoherent v s h = h

  -- Logging out always ends the session: no token, no user, nobody authenticated, and the page
  -- is sent to the login.
  pub logout_ends :
      CookieLaws C
      → (s : Session Jar)
      → (get_token (logout s).world ≡ none)
        × ((logout s).user ≡ none)
        × ((logout s).is_authenticated ≡ false)
        × ((logout s).world.href ≡ some "/login")
  unfolding logout get_token remove_token
  logout_ends laws s = ground (arith, laws.get-remove (token_key s.world) s.world.jar)

module _ {Jar : Type 0} ⦃C : Cookies Jar⦄ (p : Platform) where
  -- A login is over when the provider is done loading.
  pub login_done : (v : Json) (s : Session Jar) → (login p v s).1.is_loading ≡ false
  unfolding login
  login_done v s = refl

  pub login-IsCoherent : (v : Json) (s : Session Jar) → IsCoherent s → IsCoherent (login p v s).1
  unfolding login after_login
  login-IsCoherent v s h = ground arith

  pub refresh_token-IsCoherent : (s : Session Jar) → IsCoherent (refresh_token p s).1
  unfolding refresh_token refreshed logout
  refresh_token-IsCoherent s = ground arith

  pub initialize_auth-IsCoherent :
      (s : Session Jar) → s.user ≡ none → IsCoherent (initialize_auth p s)
  unfolding initialize_auth with_profile fall_back
  initialize_auth-IsCoherent s h = ground arith

  -- A login that the server accepts with a token that is a text and not empty signs its user in:
  -- the token is in the cookie, the provider holds the user of the reply, and it is done
  -- loading.
  pub login_signs_in :
      CookieLaws C
      → (v : Json) (s : Session Jar) (r : Response) (token : String)
      → reply_to (login_config v) s.world ≡ replied r
      → get "token" r.body ≡ some (str token)
      → token ≢ ""
      → let (answer, s') = login p v s in
        (answer.success ≡ true)
        × (get_token s'.world ≡ some token)
        × (s'.user ≡ some (login_user p s.world.now (token_data r.body)))
        × (s'.is_authenticated ≡ true)
        × (s'.is_loading ≡ false)
  unfolding login after_login
  login_signs_in laws v s r token h e full =
      let full_body : is_null r.body ≡ false = is_null-get "token" r.body e in
      ground (
        arith,
        login-replied v s.world r h full_body,
        get_token-set_token laws token (sent_on (login_config v) s.world),
        nonempty-some token full,
      )

  -- A login that fails signs nobody in and nobody out, ends loading, and is reported as a
  -- failure.
  pub login_refused :
      (v : Json) (s : Session Jar) (e : Error)
      → reply_to (login_config v) s.world ≡ failed e
      → let (answer, s') = login p v s in
        (answer.success ≡ false)
        × (s'.user ≡ s.user)
        × (s'.is_authenticated ≡ s.is_authenticated)
        × (s'.is_loading ≡ false)
  unfolding login after_login
  login_refused v s e h = ground (
    arith,
    login-failed v s.world e h,
    auth_failed-refused "Login failed" (AuthApi.on_error e (sent_on (login_config v) s.world)).0,
  )

  -- A refresh that reports failure has ended the session: no token, no user, nobody
  -- authenticated, and the page is sent to the login.
  pub refresh_token_ends :
      CookieLaws C
      → (s : Session Jar) → (refresh_token p s).0 ≡ false
      → let s' = (refresh_token p s).1 in
        (get_token s'.world ≡ none)
        × (s'.user ≡ none)
        × (s'.is_authenticated ≡ false)
        × (s'.world.href ≡ some "/login")
  unfolding refresh_token refreshed
  refresh_token_ends laws s h = elim (Option-cases (usable p s.world.now (get_token s.world))) [
    | inl unusable ↦ ground (arith, logout_ends laws s)
    | inr (token, fresh) ↦
        ground (arith, logout_ends laws (record s { world = (AuthApi.get_profile s.world).1 }))
  ]

  -- A refresh that reports success has asked the server for the profile, which answered with
  -- success and data, and the provider holds the user of that data, authenticated.
  pub refresh_token_renews :
      (s : Session Jar)
      → (refresh_token p s).0 ≡ true
      → (r : Response) × (v : Json) × (reply_to profile_config s.world ≡ replied r)
        × (profile_data r.body ≡ some v)
        × ((refresh_token p s).1.user ≡ some (user_of v))
        × ((refresh_token p s).1.is_authenticated ≡ true)
  unfolding refresh_token refreshed
  refresh_token_renews s h = elim (Option-cases (usable p s.world.now (get_token s.world))) [
    | inl unusable ↦ absurd (ground arith)
    | inr (token, fresh) ↦ elim (Reply-cases (reply_to profile_config s.world)) [
      | inl (r, g) ↦ elim (Option-cases (profile_data r.body)) [
        | inl nothing ↦ absurd (ground (arith, get_profile-replied s.world r g))
        | inr (v, vouched) ↦ (
          r,
          v,
          g,
          vouched,
          ground (arith, get_profile-replied s.world r g),
          ground (arith, get_profile-replied s.world r g),
        )
      ]
      | inr (e, g) ↦ absurd (
          ground (
            arith,
            get_profile-failed s.world e g,
            profile_data-failed (AuthApi.on_error e (sent_on profile_config s.world)).0,
          ))
    ]
  ]

  -- Without a token, or with an expired one, a mounted provider asks no server: it drops the
  -- cookie and starts as a guest, done loading.
  pub initialize_auth_as_guest :
      CookieLaws C
      → (w : World Jar) → usable p w.now (get_token w) ≡ none
      → let s' = initialize_auth p (mounted w) in
        (s'.world.sent ≡ w.sent)
        × (get_token s'.world ≡ none)
        × (s'.user ≡ none)
        × (s'.is_authenticated ≡ false)
        × (s'.is_loading ≡ false)
  unfolding initialize_auth remove_token
  initialize_auth_as_guest laws w h = ground (arith, get_token-remove_token laws w)

  -- When a mounted provider in a browser has a token that is not expired, and the server answers
  -- its profile request with a first 401, the token is removed and the page is sent to the
  -- login, and yet the provider ends up calling somebody authenticated, as the user that the
  -- rejected token names.
  pub initialize_auth_rejected :
      CookieLaws C
      → (w : World Jar) (token : String) (e : Error) (c : Config) (r : Response)
      → get_token w ≡ some token
      → is_token_expired p w.now token ≡ false
      → reply_to profile_config w ≡ failed e
      → e.response ≡ some r
      → r.status ≡ 401
      → e.config ≡ some c
      → c.retry ≡ false
      → w.has_window ≡ true
      → let s' = initialize_auth p (mounted w) in
        (get_token s'.world ≡ none)
        × (s'.world.href ≡ some "/login")
        × (s'.is_authenticated ≡ true)
        × (s'.user ≡ Option.map fallback_user (get_user_from_token p token))
  unfolding initialize_auth with_profile fall_back
  initialize_auth_rejected laws w token e c r ht hx h he hr hc fresh hw =
      elim (Option-cases (get_user_from_token p token)) [
        | inl unknown ↦ absurd (ground (arith, get_user_from_token_of_fresh p w.now token hx))
        | inr (u, known) ↦ ground (
          arith,
          get_profile-unauthorized w e c r h he hr hc fresh hw,
          profile_data-failed e,
          get_token-remove_token laws (sent_on profile_config w),
          get_token-redirect "/login" (remove_token (sent_on profile_config w)),
        )
      ]

-- A registration leaves the world as the server's call does.
pub register-world :
    {Jar : Type 0} ⦃C : Cookies Jar⦄ (v : Json) (s : Session Jar)
    → (register v s).1.world ≡ (AuthApi.register v s.world).1
unfolding register
register-world v s = refl
