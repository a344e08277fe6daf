-- ===== src/Toasts/Timers/Tests.antt =====
-- A toast of ten milliseconds, clicked after two of them.
use microsvc.Prelude.{none, some, [], ◌∷◌, false, ◌&&◌, is_some, ltb, leb, ◌≡◌}
use microsvc.Toasts.{ToastMessage, success}
use microsvc.Toasts.Timers.{appeared, click, pass, happened, run}
use microsvc.Toasts.Timers.Laws.{idle, passes, lifetime, run-appeared}

abbrev saved : ToastMessage
saved = record { id = "a1"; type = success; title = "Saved"; message = none; duration = some 10 }

run-appeared_example :
    let shown = some (appeared saved) in
    (is_some (run (idle 309) shown) ≡ ltb 309 (lifetime saved))
    × ((is_some (run (idle 310) shown) && leb (lifetime saved) (passes (idle 310))) ≡ false)
    × ((is_some (run (idle 310) (happened click (run (pass ∷ pass ∷ []) shown)))
          && leb 300 (passes (idle 310)))
        ≡ false)
run-appeared_example = run-appeared saved 309 (pass ∷ pass ∷ []) (idle 310)
