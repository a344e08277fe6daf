-- ===== src/Session/Interleaved.antt =====
-- frontend/src/lib/auth/context.tsx: the provider from its mounting on, while its requests are under
-- way. `initializeAuth`, a login, a registration and a refresh are two steps each, the request and the
-- arrival of its reply, and other steps may come in between.
pub mod Laws
mod Tests
use microsvc.Prelude.{
  ℕ, String, zero, suc, ◌+◌, ◌<◌, Bool, true, false, Option, none, some, [], ◌∷◌, Json, str,
  is_some, ◌≡◌, refl, ap, sym, ◌∙◌, arith, Option-cases, inl, inr, get,
}
use microsvc.Prelude.Lists.{length}
use microsvc.Web.{
  Cookies, CookieLaws, World, Config, Reply, Response, replied, failed, Request, exchange, empty,
  json,
}
use microsvc.Token.{Platform, get_token, remove_token}
use microsvc.Client.{config}
use microsvc.Client.Calls.{Call, run}
use microsvc.AuthApi
use microsvc.AuthApi.Laws.{login_config, profile_config, register_config, sent_on}
use microsvc.AuthApi.{
  auth_instance, on_request, settle, auth_result, body_or, profile_failed, is_null,
}
use microsvc.Session.{
  Session, mounted, initialize_auth, login, register, logout, logged_out, refresh_token, refreshed,
  after_login, loaded, loading, rejected_token, with_profile, usable, signed_in, user_of,
  profile_data,
}
use microsvc.Session.Laws.{IsCoherent}

module _ {Jar : Type 0} ⦃C : Cookies Jar⦄ where
  -- `initializeAuth` with a token that can be used, up to its request, and from the reply on; and
  -- without such a token.
  pub begin_initialize : Session Jar → Session Jar
  begin_initialize s = record s { world = sent_on profile_config s.world }

  pub end_initialize : Platform → String → Reply → Session Jar → Session Jar
  unfolding with_profile
  end_initialize p token reply s =
      let (o, w) = settle reply s.world in
      loaded (with_profile p token (body_or profile_failed o, w) s)

  pub start_as_guest : Session Jar → Session Jar
  start_as_guest s = loaded (rejected_token s.world s)

  -- `login` up to its request, and from the reply on.
  pub begin_login : Json → Session Jar → Session Jar
  begin_login credentials s = record (loading s) {
    world = sent_on (login_config credentials) s.world;
  }

  pub end_login : Platform → Reply → Session Jar → Session Jar
  unfolding after_login
  end_login p reply s =
      let (o, w) = settle reply s.world in
      loaded (after_login p (auth_result "Login successful" "Login failed" o, w) s)

  -- `register` likewise; its reply changes the world alone.
  pub begin_register : Json → Session Jar → Session Jar
  begin_register user_data s = record (loading s) {
    world = sent_on (register_config user_data) s.world;
  }

  pub end_register : Reply → Session Jar → Session Jar
  end_register reply s = loaded (record s { world = (settle reply s.world).1 })

  -- `refreshToken` with a token that can be used, up to its request, and from the reply on.
  pub begin_refresh : Session Jar → Session Jar
  begin_refresh s = record s { world = sent_on profile_config s.world }

  pub end_refresh : Reply → Session Jar → Session Jar
  unfolding refreshed
  end_refresh reply s =
      let (o, w) = settle reply s.world in (refreshed (body_or profile_failed o, w) s).1

-- What a provider is busy with, but for refreshes: `initializeAuth`, before it has looked at the token
-- and then with a token whose profile it waits for, or a login or registration.
pub data Busy : Type 0 where
  idle starting : Busy
  waiting_for : (token : String) → Busy
  logging_in registering : Busy

abbrev pub is_busy : Busy → Bool
is_busy idle = false
is_busy starting = true
is_busy (waiting_for token) = true
is_busy logging_in = true
is_busy registering = true

-- The provider with what it is busy with, and the number of refreshes whose replies are not there yet.
pub record Shared (Jar : Type 0) : Type 0 where
  pub session : Session Jar
  pub busy : Busy
  pub refreshes : ℕ

module _ {Jar : Type 0} ⦃C : Cookies Jar⦄ (p : Platform) where
  -- The token of the cookie, where it can be used.
  abbrev pub token_of : Session Jar → Option String
  token_of s = usable p s.world.now (get_token s.world)

  -- The forms, which stand under a guard, log in and register only while the provider is not loading;
  -- the timer refreshes only while somebody is authenticated.
  pub data Step (s t : Shared Jar) : Type 0 where
    guest_starts :
        s.busy ≡ starting
        → token_of s.session ≡ none
        → t ≡ record s { session = start_as_guest s.session; busy = idle }
        → Step s t
    user_starts :
        (token : String)
        → s.busy ≡ starting
        → token_of s.session ≡ some token
        → t ≡ record s { session = begin_initialize s.session; busy = waiting_for token }
        → Step s t
    start_ends :
        (reply : Reply) (token : String)
        → s.busy ≡ waiting_for token
        → t ≡ record s { session = end_initialize p token reply s.session; busy = idle }
        → Step s t
    login_begins :
        (credentials : Json)
        → s.session.is_loading ≡ false
        → t ≡ record s { session = begin_login credentials s.session; busy = logging_in }
        → Step s t
    login_ends :
        (reply : Reply)
        → s.busy ≡ logging_in
        → t ≡ record s { session = end_login p reply s.session; busy = idle }
        → Step s t
    register_begins :
        (user_data : Json)
        → s.session.is_loading ≡ false
        → t ≡ record s { session = begin_register user_data s.session; busy = registering }
        → Step s t
    register_ends :
        (reply : Reply)
        → s.busy ≡ registering
        → t ≡ record s { session = end_register reply s.session; busy = idle }
        → Step s t
    refresh_begins :
        s.session.is_authenticated ≡ true
        → is_some (token_of s.session) ≡ true
        → t ≡ record s { session = begin_refresh s.session; refreshes = suc s.refreshes }
        → Step s t
    refresh_stops :
        s.session.is_authenticated ≡ true
        → is_some (token_of s.session) ≡ false
        → t ≡ record s { session = logout s.session }
        → Step s t
    refresh_ends :
        (reply : Reply) (n : ℕ)
        → s.refreshes ≡ suc n
        → t ≡ record s { session = end_refresh reply s.session; refreshes = n }
        → Step s t
    logging_out : t ≡ record s { session = logout s.session } → Step s t
    calling :
        (call : Call)
        → t ≡ record s { session = record (s.session) { world = (run call s.session.world).1 } }
        → Step s t
    waiting :
        (ms : ℕ)
        → t ≡ record s {
          session = record (s.session) {
            world = record (s.session.world) { now = s.session.world.now + ms };
          };
        }
        → Step s t

  -- From the moment when the provider is mounted.
  pub data Reach (w : World Jar) : Shared Jar → Type 0 where
    start : Reach w (record { session = mounted w; busy = starting; refreshes = 0 })
    next : {s t : Shared Jar} → Reach w s → Step s t → Reach w t
