-- ===== src/Session/Tests.antt =====
-- The theorems of the provider on a page of the samples.
use microsvc.Prelude.{
  String, true, false, none, some, [], ◌∷◌, ◌≡◌, ◌≢◌, refl, arith, Json, str, bool, obj, field, end,
  eq_iff, lookup, insert, get, find,
}
use mathlib.Core.Option
use microsvc.Web.{World, Config, empty, Response, replied}
use microsvc.Token.{get_token, token_key, get_user_from_token}
use microsvc.Client.{config}
use microsvc.AuthApi
use microsvc.AuthApi.{token_data}
use microsvc.AuthApi.Laws.{reply_to, login_config, profile_config, get_profile-replied}
use microsvc.Token.Tests.{sample_fresh}
use microsvc.Session.{
  Session, mounted, user_of, profile_data, login_user, fallback_user, logout, refresh_token,
  initialize_auth, login, refreshed,
}
use microsvc.Session.Laws.{
  login_signs_in, refresh_token_ends, refresh_token_renews, initialize_auth_rejected,
}
use microsvc.Session.Steps.{Reach, start, next, logging_out, refreshing, IsSettled, Reach-IsSettled}
use microsvc.Session.Unauthorized.{after_call, refresh_token_unauthorized}
use microsvc.Client.Tests.{listing, sent_config, listing_refused}
use microsvc.Samples.{
  Jar, cookies, cookie_laws, platform, page, guest_page, accept, refuse, error_of,
}

abbrev account : Json
account = obj (field "token" (str "h.e30.s") (field "username" (str "ada") end))

abbrev credentials : Json
credentials = obj (field "password" (str "secret") end)

abbrev vouching : Json
vouching = obj (field "success" (bool true) (field "data" account end))

abbrev lone : World Jar
lone = guest_page (accept account)

abbrev known : World Jar
known = page (accept vouching)

abbrev turned_away : World Jar
turned_away = page (refuse 401)

abbrev profile_request : Config
profile_request = config "GET" "/api/users/profile" empty (("Authorization", "Bearer h.e30.s") ∷ [])

token_text-ne : ◌≢◌ {A = String} "h.e30.s" ""
token_text-ne = ground (arith, eq_iff "h.e30.s" "")

login_signs_in_example :
    let (answer, s') = login platform credentials (mounted lone) in
    (answer.success ≡ true)
    × (get_token s'.world ≡ some "h.e30.s")
    × (s'.user ≡ some (login_user platform 1700000000000 (token_data account)))
    × (s'.is_authenticated ≡ true)
    × (s'.is_loading ≡ false)
unfolding get find
login_signs_in_example =
    login_signs_in platform cookie_laws credentials (mounted lone)
      (record { status = 200; body = account }) "h.e30.s" refl refl token_text-ne

abbrev login_request : Config
login_request = login_config credentials

refresh_token_ends_example :
    let s' = (refresh_token platform (mounted lone)).1 in
    (get_token s'.world ≡ none)
    × (s'.user ≡ none)
    × (s'.is_authenticated ≡ false)
    × (s'.world.href ≡ some "/login")
unfolding refresh_token get_token token_key lookup
refresh_token_ends_example = refresh_token_ends platform cookie_laws (mounted lone) refl

known_refreshes : (refresh_token platform (mounted known)).0 ≡ true
unfolding refresh_token refreshed get_token token_key lookup get find
known_refreshes =
    ground (
      arith,
      sample_fresh,
      get_profile-replied known (record { status = 200; body = vouching }) refl,
    )

refresh_token_renews_example :
    (r : Response) × (v : Json) × (reply_to profile_config known ≡ replied r)
    × (profile_data r.body ≡ some v)
    × ((refresh_token platform (mounted known)).1.user ≡ some (user_of v))
    × ((refresh_token platform (mounted known)).1.is_authenticated ≡ true)
refresh_token_renews_example = refresh_token_renews platform (mounted known) known_refreshes

initialize_auth_rejected_example :
    let s' = initialize_auth platform (mounted turned_away) in
    (get_token s'.world ≡ none)
    × (s'.world.href ≡ some "/login")
    × (s'.is_authenticated ≡ true)
    × (s'.user ≡ Option.map fallback_user (get_user_from_token platform "h.e30.s"))
unfolding get_token token_key lookup insert AuthApi.on_request
initialize_auth_rejected_example =
    initialize_auth_rejected platform cookie_laws turned_away "h.e30.s"
      (error_of 401 profile_request) profile_request (record { status = 401; body = obj end }) refl
      sample_fresh refl refl refl refl refl refl

abbrev final : Session Jar
final = logout (refresh_token platform (initialize_auth platform (mounted known))).1

pub final_reached : Reach platform known final
final_reached = next (next start (refreshing refl)) (logging_out refl)

Reach-IsSettled_example : IsSettled final
Reach-IsSettled_example = Reach-IsSettled platform final_reached

refresh_token_unauthorized_example :
    let s' = after_call listing (mounted turned_away) in
    let (refreshed, s'') = refresh_token platform s' in
    (get_token s'.world ≡ none)
    × (s'.user ≡ none)
    × (s'.is_authenticated ≡ false)
    × (refreshed ≡ false)
    × (s''.world.sent ≡ s'.world.sent)
    × (s''.user ≡ none)
    × (s''.is_authenticated ≡ false)
    × (s''.world.href ≡ some "/login")
refresh_token_unauthorized_example =
    refresh_token_unauthorized platform cookie_laws listing (mounted turned_away)
      (error_of 401 sent_config) sent_config (record { status = 401; body = obj end })
      listing_refused refl refl refl refl
