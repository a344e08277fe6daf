-- ===== src/Session/Steps.antt =====
-- A mounted provider over time: its own operations, the page's calls through `apiClient`, and the
-- clock, in any order, each to its end. The states while one of them is under way are in Interleaved.
use microsvc.Prelude.{ℕ, ◌+◌, false, ◌≡◌, refl, arith, Json}
use microsvc.Web.{Cookies, World}
use microsvc.Token.{Platform}
use microsvc.Client.Calls.{Call, run}
use microsvc.Session.{
  Session, mounted, initialize_auth, login, register, logout, refresh_token, refreshed,
}
use microsvc.Session.Laws.{
  IsCoherent, login-IsCoherent, refresh_token-IsCoherent, initialize_auth-IsCoherent,
}

-- A session at rest: no operation is under way, and somebody is authenticated exactly when there is
-- a user.
pub record IsSettled {Jar : Type 0} (s : Session Jar) : Type 0 where
  pub done : s.is_loading ≡ false
  pub coherent : IsCoherent s

module _ {Jar : Type 0} ⦃C : Cookies Jar⦄ (p : Platform) where
  pub data Step (s t : Session Jar) : Type 0 where
    logging_in : (credentials : Json) → t ≡ (login p credentials s).1 → Step s t
    registering : (user_data : Json) → t ≡ (register user_data s).1 → Step s t
    logging_out : t ≡ logout s → Step s t
    refreshing : t ≡ (refresh_token p s).1 → Step s t
    calling : (call : Call) → t ≡ record s { world = (run call s.world).1 } → Step s t
    waiting :
        (ms : ℕ) → t ≡ record s { world = record (s.world) { now = s.world.now + ms } } → Step s t

  -- The states of a provider that was mounted in a world, between its operations: the first of them
  -- is `initializeAuth`.
  pub data Reach (w : World Jar) : Session Jar → Type 0 where
    start : Reach w (initialize_auth p (mounted w))
    next : {s t : Session Jar} → Reach w s → Step s t → Reach w t

  pub initialize_auth-IsSettled : (w : World Jar) → IsSettled (initialize_auth p (mounted w))
  unfolding initialize_auth
  initialize_auth-IsSettled w = ground (arith, initialize_auth-IsCoherent p (mounted w) refl)

  Step-IsSettled : {s t : Session Jar} → Step s t → IsSettled s → IsSettled t
  unfolding login register logout refresh_token refreshed
  Step-IsSettled {s} (logging_in v e) h = ground (arith, login-IsCoherent p v s h.coherent)
  Step-IsSettled {s} (registering v e) h = ground arith
  Step-IsSettled {s} (logging_out e) h = ground arith
  Step-IsSettled {s} (refreshing e) h = ground (arith, refresh_token-IsCoherent p s)
  Step-IsSettled {s} (calling call e) h = ground arith
  Step-IsSettled {s} (waiting ms e) h = ground arith

  -- Where the operations of a provider run one after another, each to its end, every one of them
  -- leaves it at rest: after mounting, logging in, registering, logging out, refreshing, calls of the
  -- client and the passing of time, in any order, it is not loading, and it calls somebody
  -- authenticated exactly when it holds a user.
  pub Reach-IsSettled : {w : World Jar} {s : Session Jar} → Reach w s → IsSettled s
  Reach-IsSettled start = initialize_auth-IsSettled _
  Reach-IsSettled (next r st) = Step-IsSettled st (Reach-IsSettled r)
