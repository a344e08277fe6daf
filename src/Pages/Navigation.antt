-- ===== src/Pages/Navigation.antt =====
-- frontend/src/app/page.tsx and frontend/src/components/layout/Header.tsx: what the start page and
-- the head of every page show of the provider, and where they lead.
pub mod Laws
mod Tests
use microsvc.Prelude.{
  String, Bool, true, false, not, ◌&&◌, ◌||◌, Option, none, some, List, [], ◌∷◌, Json,
  if◌then◌else◌,
}
use microsvc.Web.{Cookies}
use microsvc.Token.{User}
use microsvc.Session.{Session, logout}

pub data HomeView : Type 0 where
  spinner landing : HomeView

module _ {Jar : Type 0} where
  -- The effect of the start page: the address given to `router.push`, if any.
  pub home_pushed : Session Jar → Option String
  home_pushed s = if not s.is_loading && s.is_authenticated then some "/dashboard" else none

  pub home : Session Jar → HomeView
  home s = if s.is_loading || s.is_authenticated then spinner else landing

-- The links of the head, and whom it greets.
pub record HeaderView : Type 0 where
  pub links : List String
  pub username : Option Json

abbrev pub links_of_header : List String
links_of_header = "/dashboard" ∷ "/accounts" ∷ "/transactions" ∷ "/ai-assistant" ∷ "/profile" ∷ []

module _ {Jar : Type 0} where
  -- Nothing where there is no user.
  pub header : Session Jar → Option HeaderView
  header s = elim s.user [
    | none ↦ none
    | some u ↦ some (record { links = links_of_header; username = u.username })
  ]

  -- `handleLogout`, with the address given to `router.push`.
  pub handle_logout : ⦃C : Cookies Jar⦄ → Session Jar → Session Jar × String
  handle_logout s = (logout s, "/login")
