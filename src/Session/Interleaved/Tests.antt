-- ===== src/Session/Interleaved/Tests.antt =====
-- The theorems of a provider with requests under way, on a page of the samples.
use microsvc.Prelude.{
  lookup, true, none, some, ◌≡◌, refl, Json, str, bool, obj, field, end, get, find,
}
use microsvc.Web.{World, Response, replied}
use microsvc.Token.{get_token}
use microsvc.Session.{mounted, logout, user_of}
use microsvc.Session.Interleaved.{
  begin_login, end_login, end_refresh, Shared, start, next, login_begins, login_ends, idle,
  logging_in, start_as_guest, guest_starts, logging_out,
}
use microsvc.Session.Interleaved.Laws.{IsHonest, Reach-IsHonest, logout_undone}
use microsvc.Samples.{Jar, cookies, cookie_laws, platform, guest_page, accept}

abbrev account : Json
account = obj (field "token" (str "h.e30.s") (field "username" (str "ada") end))

abbrev vouching : Json
vouching = obj (field "success" (bool true) (field "data" account end))

abbrev credentials : Json
credentials = obj (field "password" (str "secret") end)

abbrev lone : World Jar
lone = guest_page (accept account)

abbrev answer : Response
answer = record { status = 200; body = account }

abbrev profile_answer : Response
profile_answer = record { status = 200; body = vouching }

-- A provider without a token starts, a login begins, the reader logs out, and the reply of the login
-- arrives.
abbrev first : Shared Jar
first = record { session = start_as_guest (mounted lone); busy = idle; refreshes = 0 }

abbrev second : Shared Jar
second = record first { session = begin_login credentials first.session; busy = logging_in }

abbrev third : Shared Jar
third = record second { session = logout second.session }

abbrev fourth : Shared Jar
fourth = record third { session = end_login platform (replied answer) third.session; busy = idle }

Reach-IsHonest_example : IsHonest platform fourth
unfolding get_token lookup start_as_guest
Reach-IsHonest_example = Reach-IsHonest platform {w = lone} {s = fourth} (
    next
      (next (next (next start (guest_starts refl refl refl)) (login_begins credentials refl refl))
        (logging_out refl))
      (login_ends (replied answer) refl refl))

logout_undone_example :
    let after = end_refresh (replied profile_answer) (logout (mounted lone)) in
    (after.is_authenticated ≡ true)
    × (after.user ≡ some (user_of account))
    × (get_token after.world ≡ none)
    × (after.world.href ≡ some "/login")
unfolding get find
logout_undone_example =
    logout_undone platform cookie_laws profile_answer account (mounted lone) refl refl
