-- ===== src/Session/Interleaved/Laws.antt =====
-- What holds of a provider whatever comes between its requests and their replies.
use microsvc.Prelude.{
  if◌then◌else◌, Bool, String, refl, true, false, none, some, Json, is_some, ◌≡◌, ap, ◌∙◌, arith,
}
use microsvc.Web.{Cookies, CookieLaws, World, Reply, Response, replied}
use microsvc.Token.{Platform, get_token}
use microsvc.AuthApi.Laws.{
  login_config, profile_config, reply_to, login-sent_on, get_profile-sent_on, settle-replied,
}
use microsvc.Session.{
  Session, login, logout, refresh_token, usable, user_of, signed_in, fall_back, profile_data,
}
use microsvc.AuthApi.{is_null}
use microsvc.Session.Laws.{IsCoherent, logout_ends}
use microsvc.Session.Interleaved.{
  begin_initialize, end_initialize, start_as_guest, begin_login, end_login, begin_register,
  end_register, begin_refresh, end_refresh, Busy, idle, starting, waiting_for, logging_in,
  registering, is_busy, Shared, Step, Reach, guest_starts, user_starts, start_ends, login_begins,
  login_ends, register_begins, register_ends, refresh_begins, refresh_stops, refresh_ends,
  logging_out, calling, waiting, start, next,
}

-- Whether the provider has not started yet.
abbrev is_initial : Busy → Bool
is_initial idle = false
is_initial starting = true
is_initial (waiting_for token) = true
is_initial logging_in = false
is_initial registering = false

module _ {Jar : Type 0} ⦃C : Cookies Jar⦄ (p : Platform) where
  -- With nothing in between, the two halves of a login are the whole of it, and so are those of a
  -- refresh where the token can be used; where it cannot, the refresh is a logout.
  halves_in_turn :
      (credentials : Json) (s : Session Jar)
      → (end_login p (reply_to (login_config credentials) s.world) (begin_login credentials s)
          ≡ (login p credentials s).1)
        × ((if is_some (usable p s.world.now (get_token s.world))
              then end_refresh (reply_to profile_config s.world) (begin_refresh s)
              else logout s)
            ≡ (refresh_token p s).1)
  unfolding begin_login end_login begin_refresh end_refresh login refresh_token
  halves_in_turn credentials s = (
    ground (arith, login-sent_on credentials s.world),
    ground (arith, get_profile-sent_on s.world),
  )

  -- What a provider is at every moment. While it starts, nobody is signed in and no refresh is under way.
  pub record IsHonest (s : Shared Jar) : Type 0 where
    pub coherent : s.session.is_authenticated ≡ is_some s.session.user
    pub loading : s.session.is_loading ≡ is_busy s.busy
    pub alone : is_initial s.busy ≡ true → (s.session.user ≡ none) × (s.refreshes ≡ 0)

  end_initialize_lem :
      (token : String) (reply : Reply) (s : Session Jar)
      → s.user ≡ none
      → IsCoherent (end_initialize p token reply s)
        × ((end_initialize p token reply s).is_loading ≡ false)
  unfolding end_initialize fall_back
  end_initialize_lem token reply s h = (ground arith, ground arith)

  end_login_lem :
      (reply : Reply) (s : Session Jar)
      → IsCoherent s
      → IsCoherent (end_login p reply s) × ((end_login p reply s).is_loading ≡ false)
  unfolding end_login
  end_login_lem reply s h = (ground arith, ground arith)

  end_refresh_lem :
      (reply : Reply) (s : Session Jar)
      → IsCoherent s
      → IsCoherent (end_refresh reply s) × ((end_refresh reply s).is_loading ≡ s.is_loading)
  unfolding end_refresh logout
  end_refresh_lem reply s h = (ground arith, ground arith)

  Step-IsHonest : {s t : Shared Jar} → Step p s t → IsHonest s → IsHonest t
  unfolding begin_initialize start_as_guest begin_login begin_register end_register begin_refresh
      logout
  Step-IsHonest {s} (guest_starts first no_token e) h = record {
    coherent = ground (arith, h.alone);
    loading = ground arith;
    alone = λ i. absurd (ground arith);
  }
  Step-IsHonest {s} (user_starts token first has_token e) h = record {
    coherent = ground (arith, h.coherent);
    loading = ground (arith, h.loading);
    alone = λ i. ground (arith, h.alone);
  }
  Step-IsHonest {s} (start_ends reply token first e) h =
      let (no_user, none_left) = h.alone (ground arith) in
      let (coherent, done) = end_initialize_lem token reply s.session no_user in
      record { coherent = ground arith; loading = ground arith; alone = λ i. absurd (ground arith) }
  Step-IsHonest {s} (login_begins v free e) h = record {
    coherent = ground (arith, h.coherent);
    loading = ground arith;
    alone = λ i. absurd (ground arith);
  }
  Step-IsHonest {s} (login_ends reply busy e) h =
      let (coherent, done) = end_login_lem reply s.session h.coherent in
      record { coherent = ground arith; loading = ground arith; alone = λ i. absurd (ground arith) }
  Step-IsHonest {s} (register_begins v free e) h = record {
    coherent = ground (arith, h.coherent);
    loading = ground arith;
    alone = λ i. absurd (ground arith);
  }
  Step-IsHonest {s} (register_ends reply busy e) h = record {
    coherent = ground (arith, h.coherent);
    loading = ground arith;
    alone = λ i. absurd (ground arith);
  }
  Step-IsHonest {s} (refresh_begins in_use ready e) h = record {
    coherent = ground (arith, h.coherent);
    loading = ground (arith, h.loading);
    alone = λ i. absurd (ground (arith, h.alone, h.coherent));
  }
  Step-IsHonest {s} (refresh_stops in_use expired e) h = record {
    coherent = ground arith;
    loading = ground (arith, h.loading);
    alone = λ i. ground (arith, h.alone);
  }
  Step-IsHonest {s} (refresh_ends reply n some_left e) h =
      let (coherent, same) = end_refresh_lem reply s.session h.coherent in
      record {
        coherent = ground arith;
        loading = ground (arith, h.loading);
        alone = λ i. absurd (ground (arith, h.alone));
      }
  Step-IsHonest {s} (logging_out e) h = record {
    coherent = ground arith;
    loading = ground (arith, h.loading);
    alone = λ i. ground (arith, h.alone);
  }
  Step-IsHonest {s} (calling call e) h = record {
    coherent = ground (arith, h.coherent);
    loading = ground (arith, h.loading);
    alone = λ i. ground (arith, h.alone);
  }
  Step-IsHonest {s} (waiting ms e) h = record {
    coherent = ground (arith, h.coherent);
    loading = ground (arith, h.loading);
    alone = λ i. ground (arith, h.alone);
  }

  -- From the moment when a provider is mounted, whatever comes between its requests and their replies,
  -- in any order and with any replies: somebody is authenticated exactly when there is a user, and the
  -- provider is loading exactly while its start, a login or a registration is under way. The forms log
  -- in and register only while it is not loading, and the timer refreshes only while somebody is
  -- authenticated.
  pub Reach-IsHonest : {w : World Jar} {s : Shared Jar} → Reach p w s → IsHonest s
  Reach-IsHonest start = record { coherent = refl; loading = refl; alone = λ i. (refl, refl) }
  Reach-IsHonest (next r st) = Step-IsHonest st (Reach-IsHonest r)

  end_refresh-replied :
      (r : Response) (profile : Json) (s : Session Jar)
      → is_null r.body ≡ false
      → profile_data r.body ≡ some profile
      → end_refresh (replied r) s ≡ signed_in (user_of profile) s.world s
  unfolding end_refresh
  end_refresh-replied r profile s body found = ground (arith, settle-replied r s.world)

  -- A logout while a refresh is under way is undone by a reply with a profile: the provider calls
  -- somebody authenticated again, without a token and on a page that is sent to the login.
  pub logout_undone :
      (laws : CookieLaws C) (r : Response) (profile : Json) (s : Session Jar)
      → is_null r.body ≡ false
      → profile_data r.body ≡ some profile
      → let after = end_refresh (replied r) (logout s) in
        (after.is_authenticated ≡ true)
        × (after.user ≡ some (user_of profile))
        × (get_token after.world ≡ none)
        × (after.world.href ≡ some "/login")
  logout_undone laws r profile s body found =
      let (no_token, no_user, nobody, sent_away) = logout_ends laws s in
      let back = end_refresh-replied r profile (logout s) body found in
      (
        ap (λ (t : Session Jar). t.is_authenticated) back,
        ap (λ (t : Session Jar). t.user) back,
        ap (λ (t : Session Jar). get_token t.world) back ∙ no_token,
        ap (λ (t : Session Jar). t.world.href) back ∙ sent_away,
      )
