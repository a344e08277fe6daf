-- ===== src/Guard/Readers.antt =====
-- A guarded page under a provider.
use microsvc.Prelude.{true, false, ◌≡◌, ◌↔◌, arith, is_some, some}
use microsvc.Web.{Cookies, World}
use microsvc.Token.{Platform}
use microsvc.Session.Interleaved.{Shared, Reach, is_busy}
use microsvc.Session.Interleaved.Laws.{Reach-IsHonest}
use microsvc.Guard.{Props, spinner, children, render, pushed}

-- At every moment of a provider, from its mounting on, a page that asks for a user shows that it is
-- loading exactly while the provider starts or a login or a registration is under way. At all other
-- times it is shown exactly when the provider holds a user, and sends the reader to its address
-- exactly when it holds none; while it is loading it sends nobody anywhere.
pub render_reachable_iff :
    {Jar : Type 0} ⦃C : Cookies Jar⦄ (platform : Platform) {w : World Jar} {s : Shared Jar}
    (p : Props)
    → Reach platform w s
    → p.require_auth ≡ true
    → let loading = s.session.is_loading in
      let authenticated = s.session.is_authenticated in
      ((render p loading authenticated ≡ spinner) ↔ (is_busy s.busy ≡ true))
      × ((render p loading authenticated ≡ children)
          ↔ ((is_busy s.busy ≡ false) × (is_some s.session.user ≡ true)))
      × ((pushed p loading authenticated ≡ some p.redirect_to)
          ↔ ((is_busy s.busy ≡ false) × (is_some s.session.user ≡ false)))
      × ((is_some (pushed p loading authenticated) ≡ true)
          ↔ ((is_busy s.busy ≡ false) × (is_some s.session.user ≡ false)))
unfolding render pushed
render_reachable_iff platform {s = s} p r guarded =
    let honest = Reach-IsHonest platform r in
    let coherent = honest.coherent in
    let loading = honest.loading in (ground arith, ground arith, ground arith, ground arith)
