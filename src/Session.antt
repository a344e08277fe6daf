-- ===== src/Session.antt =====
-- frontend/src/lib/auth/context.tsx: `AuthProvider`, its state and its operations. Each operation
-- runs to its end before the next one starts.
pub mod Laws
pub mod Steps
pub mod Interleaved
pub mod Unauthorized
mod Tests
use microsvc.Prelude.{
  ℕ, String, Bool, true, false, not, Option, none, some, ◌&&◌, ◌||◌, if◌then◌else◌, Json, null,
  bool, num, str, arr, obj, get, truthy?, ◌⧺◌,
}
use microsvc.Web.{Cookies, World, redirect}
use microsvc.Token.{
  Platform, User, TokenUser, get_token, set_token, remove_token, is_token_expired,
  get_user_from_token,
}
use microsvc.AuthApi
use microsvc.AuthApi.{AuthResponse, TokenData, is_null}

pub record Session (Jar : Type 0) : Type 0 where
  pub world : World Jar
  pub user : Option User
  pub is_loading : Bool
  pub is_authenticated : Bool

-- The state of a provider that has just been mounted.
abbrev pub mounted : {Jar : Type 0} → World Jar → Session Jar
mounted w = record { world = w; user = none; is_loading = true; is_authenticated = false }

-- The user that a profile's data stands for, field by field.
abbrev pub user_of : Json → User
user_of v = record {
  id = get "id" v;
  username = get "username" v;
  email = get "email" v;
  roles = get "roles" v;
  created_at = get "createdAt" v;
  updated_at = get "updatedAt" v;
}

-- `profileResponse.success && profileResponse.data`, as the data where both are truthy.
abbrev pub profile_data : Json → Option Json
profile_data response =
    if truthy? (get "success" response) && truthy? (get "data" response)
    then get "data" response
    else none

abbrev pub fallback_user : TokenUser → User
fallback_user t = record {
  id = t.id;
  username = t.username;
  email = some (str "");
  roles = t.roles;
  created_at = some (str "");
  updated_at = some (str "");
}

abbrev pub usable : Platform → ℕ → Option String → Option String
usable p now none = none
usable p now (some token) = if is_token_expired p now token then none else some token

-- A token as it is written to the cookie.
abbrev pub token_text : Platform → Option Json → String
token_text p none = "undefined"
token_text p (some null) = p.to_text null
token_text p (some (bool b)) = p.to_text (bool b)
token_text p (some (num n)) = p.to_text (num n)
token_text p (some (str s)) = s
token_text p (some (arr items)) = p.to_text (arr items)
token_text p (some (obj fields)) = p.to_text (obj fields)

abbrev pub login_user : Platform → ℕ → TokenData → User
login_user p now d = record {
  id = d.id;
  username = d.username;
  email = d.email;
  roles = d.roles;
  created_at = some (str (p.iso now));
  updated_at = some (str (p.iso now));
}

module _ {Jar : Type 0} ⦃C : Cookies Jar⦄ where
  abbrev pub signed_in : User → World Jar → Session Jar → Session Jar
  signed_in u w s = record s { world = w; user = some u; is_authenticated = true }

  abbrev pub rejected_token : World Jar → Session Jar → Session Jar
  rejected_token w s = record s { world = remove_token w; is_authenticated = false }

  abbrev pub loaded : Session Jar → Session Jar
  loaded s = record s { is_loading = false }

  -- `setIsLoading(true)`
  abbrev pub loading : Session Jar → Session Jar
  loading s = record s { is_loading = true }

  pub register : Json → Session Jar → AuthResponse × Session Jar
  register user_data s =
      let (r, w) = AuthApi.register user_data (loading s).world in
      (r, loaded (record (loading s) { world = w }))

  pub logout : Session Jar → Session Jar
  logout s = record s {
    world = redirect "/login" (remove_token s.world);
    user = none;
    is_authenticated = false;
  }

  abbrev pub logged_out : World Jar → Session Jar → Bool × Session Jar
  logged_out w s = (false, logout (record s { world = w }))

  pub refreshed : Json × World Jar → Session Jar → Bool × Session Jar
  unfolding logout
  refreshed (response, w) s =
      if is_null response then logged_out w s else elim (profile_data response) [
        | none ↦ logged_out w s
        | some v ↦ (true, signed_in (user_of v) w s)
      ]

module _ {Jar : Type 0} ⦃C : Cookies Jar⦄ (p : Platform) where
  -- The branch of `initializeAuth` where the profile could not be had.
  pub fall_back : String → World Jar → Session Jar → Session Jar
  fall_back token w s = elim (get_user_from_token p token) [
    | none ↦ rejected_token w s
    | some t ↦ signed_in (fallback_user t) w s
  ]

  -- A response that is `null` throws when its `success` is read, and the `catch` ends the session.
  pub with_profile : String → Json × World Jar → Session Jar → Session Jar
  unfolding fall_back
  with_profile token (response, w) s =
      if is_null response then rejected_token w s else elim (profile_data response) [
        | none ↦ fall_back token w s
        | some v ↦ signed_in (user_of v) w s
      ]

  pub initialize_auth : Session Jar → Session Jar
  unfolding with_profile
  initialize_auth s = elim (usable p s.world.now (get_token s.world)) [
    | none ↦ loaded (rejected_token s.world s)
    | some token ↦ loaded (with_profile token (AuthApi.get_profile s.world) s)
  ]

  pub after_login : AuthResponse × World Jar → Session Jar → Session Jar
  after_login (r, w) s = elim r.result [
    | none ↦ record s { world = w }
    | some d ↦
        if r.success
        then signed_in (login_user p w.now d) (set_token (token_text p d.token) w) s
        else record s { world = w }
  ]

  pub login : Json → Session Jar → AuthResponse × Session Jar
  unfolding after_login
  login credentials s =
      let answer = AuthApi.login credentials (loading s).world in
      (answer.0, loaded (after_login answer (loading s)))

  pub refresh_token : Session Jar → Bool × Session Jar
  unfolding refreshed logout
  refresh_token s = elim (usable p s.world.now (get_token s.world)) [
    | none ↦ logged_out s.world s
    | some token ↦ refreshed (AuthApi.get_profile s.world) s
  ]
