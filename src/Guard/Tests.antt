-- ===== src/Guard/Tests.antt =====
-- The theorems of the guard on a provider of the samples.
use microsvc.Prelude.{true, false, some, ◌≡◌, ◌↔◌, refl, is_some}
use microsvc.Session.{mounted}
use microsvc.Session.Interleaved.{Shared, Reach, start, starting, is_busy}
use microsvc.Guard.{default_props, spinner, children, render, pushed}
use microsvc.Guard.Readers.{render_reachable_iff}
use microsvc.Samples.{Jar, cookies, platform, page, refuse}

-- A provider that has just been mounted.
abbrev opened : Shared Jar
opened = record { session = mounted (page (refuse 401)); busy = starting; refreshes = 0 }

opened_reached : Reach platform (page (refuse 401)) opened
opened_reached = start

render_reachable_iff_example :
    let loading = opened.session.is_loading in
    let authenticated = opened.session.is_authenticated in
    ((render default_props loading authenticated ≡ spinner) ↔ (is_busy opened.busy ≡ true))
    × ((render default_props loading authenticated ≡ children)
        ↔ ((is_busy opened.busy ≡ false) × (is_some opened.session.user ≡ true)))
    × ((pushed default_props loading authenticated ≡ some "/login")
        ↔ ((is_busy opened.busy ≡ false) × (is_some opened.session.user ≡ false)))
    × ((is_some (pushed default_props loading authenticated) ≡ true)
        ↔ ((is_busy opened.busy ≡ false) × (is_some opened.session.user ≡ false)))
render_reachable_iff_example = render_reachable_iff platform default_props opened_reached refl
