-- ===== src/Guard.antt =====
-- frontend/src/components/auth/ProtectedRoute.tsx: what a guarded page shows, and where it sends
-- the reader.
pub mod Laws
pub mod Readers
mod Tests
use microsvc.Prelude.{String, Bool, true, false, not, Option, none, some, ◌&&◌, if◌then◌else◌}

pub record Props : Type 0 where
  pub require_auth : Bool
  pub redirect_to : String

-- `requireAuth = true`, `redirectTo = '/login'`
abbrev pub default_props : Props
default_props = record { require_auth = true; redirect_to = "/login" }

pub data View : Type 0 where
  spinner nothing children : View

-- The effect: the address given to `router.push`, if any.
pub pushed : Props → (loading authenticated : Bool) → Option String
pushed p loading authenticated =
    if not loading
    then if p.require_auth && not authenticated
      then some p.redirect_to
      else if not p.require_auth && authenticated
      then some "/dashboard"
      else none
    else none

unfoldable pub render : Props → (loading authenticated : Bool) → View
render p loading authenticated =
    if loading
    then spinner
    else if p.require_auth && not authenticated
    then nothing
    else if not p.require_auth && authenticated
    then nothing
    else children
