-- ===== src/Guard/Laws.antt =====
-- Loading, showing and redirecting exclude one another, and one of them always happens.
use microsvc.Prelude.{Bool, true, false, none, some, ◌≡◌, ◌↔◌, ◌⊎◌, arith, is_some}
use microsvc.Guard.{Props, nothing, children, pushed, render}

-- The page behind a guard is shown exactly when the session is known and nobody is sent
-- elsewhere, and that is when the session is known and is what the page asks for.
pub render-children_iff :
    (p : Props) (loading authenticated : Bool)
    → ((render p loading authenticated ≡ children)
        ↔ ((loading ≡ false) × (pushed p loading authenticated ≡ none)))
      × ((render p loading authenticated ≡ children)
          ↔ ((loading ≡ false) × (p.require_auth ≡ authenticated)))
unfolding render pushed
render-children_iff p loading authenticated = ground arith

-- Nothing is shown exactly when the reader is sent elsewhere: from a page for users to the
-- address of its props, from a page for guests to the dashboard.
pub render-nothing_iff :
    (p : Props) (loading authenticated : Bool)
    → ((render p loading authenticated ≡ nothing)
        ↔ (is_some (pushed p loading authenticated) ≡ true))
      × ((render p loading authenticated ≡ nothing) ↔ (
          ((loading ≡ false)
            × (p.require_auth ≡ true)
            × (authenticated ≡ false)
            × (pushed p loading authenticated ≡ some p.redirect_to))
          ⊎ ((loading ≡ false)
              × (p.require_auth ≡ false)
              × (authenticated ≡ true)
              × (pushed p loading authenticated ≡ some "/dashboard"))))
unfolding render pushed
render-nothing_iff p loading authenticated = ground arith
