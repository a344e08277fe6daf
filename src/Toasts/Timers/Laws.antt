-- ===== src/Toasts/Timers/Laws.antt =====
-- How long a toast stays.
use microsvc.Prelude.{
  ℕ, zero, suc, ◌+◌, Bool, true, false, leb, ltb, not, ◌||◌, ◌&&◌, Option, none, some, is_some,
  or_else, List, [], ◌∷◌, if◌then◌else◌, ◌≡◌, refl, ◌∙◌, arith, Bool-cases, inl, inr,
}
use microsvc.Toasts.{ToastMessage}
use microsvc.Toasts.Timers.{
  Card, appeared, clicked, aged, any_within, passed, Event, click, pass, happened, run,
}

-- Whether a toast is closed within `n` milliseconds if nobody clicks.
abbrev soon : ℕ → Card → Bool
soon n c =
    elim (c.timer) [ none ↦ false | some k ↦ leb (k + 300) n && leb 301 n ]
    || any_within n c.closing

abbrev soon? : ℕ → Option Card → Bool
soon? n none = true
soon? n (some c) = soon n c

any_within-suc : (n : ℕ) (ms : List ℕ) → any_within (suc n) ms ≡ any_within n (aged ms)
unfolding any_within aged
any_within-suc n [] = refl
any_within-suc n (m ∷ ms) = ground (arith, any_within-suc n ms)

any_within_le : (n : ℕ) (ms : List ℕ) → any_within 0 ms ≡ true → any_within n ms ≡ true
unfolding any_within
any_within_le n [] h = h
any_within_le n (m ∷ ms) h = elim (Bool-cases (leb m 0)) [
  | inl now ↦ ground arith
  | inr later ↦ ground (arith, any_within_le n ms (ground arith))
]

soon-passed : (n : ℕ) (c : Card) → soon (suc n) c ≡ soon? n (passed c)
unfolding passed
soon-passed n c = elim (Bool-cases (any_within 0 (aged c.closing))) [
  | inl due ↦ ground (arith, any_within-suc n c.closing, any_within_le n (aged c.closing) due)
  | inr later ↦ ground (arith, any_within-suc n c.closing)
]

-- No timer that would close the toast is over. A toast that is gone has none.
abbrev live? : Option Card → Bool
live? none = true
live? (some c) = not (any_within 0 c.closing)

happened-live : (e : Event) (c : Option Card) → live? c ≡ true → live? (happened e c) ≡ true
unfolding happened clicked passed any_within
happened-live e none h = refl
happened-live click (some c) h = ground arith
happened-live pass (some c) h = elim (Bool-cases (any_within 0 (aged c.closing))) [
  | inl due ↦ ground arith
  | inr later ↦ ground arith
]

run-live : (es : List Event) (c : Option Card) → live? c ≡ true → live? (run es c) ≡ true
unfolding run
run-live [] c h = h
run-live (e ∷ es) c h = run-live es (happened e c) (happened-live e c h)

-- The milliseconds of a list of events.
abbrev pub passes : List Event → ℕ
passes [] = 0
passes (click ∷ es) = passes es
passes (pass ∷ es) = suc (passes es)

abbrev pub idle : ℕ → List Event
idle zero = []
idle (suc n) = pass ∷ idle n

soon-clicked : (n : ℕ) (c : Card) → soon n c ≡ true → soon n (clicked c) ≡ true
unfolding clicked any_within
soon-clicked n c h = ground arith

soon?-pass : (n : ℕ) (c : Option Card) → soon? (suc n) c ≡ soon? n (happened pass c)
unfolding happened
soon?-pass n none = refl
soon?-pass n (some c) = soon-passed n c

soon?-click : (n : ℕ) (c : Option Card) → soon? n c ≡ true → soon? n (happened click c) ≡ true
unfolding happened
soon?-click n none h = refl
soon?-click n (some c) h = soon-clicked n c h

-- At the last moment the toast is closed exactly when it is gone.
soon?_zero : (c : Option Card) → live? c ≡ true → soon? 0 c ≡ not (is_some c)
soon?_zero none h = refl
soon?_zero (some c) h = ground arith

run-ends :
    (es : List Event) (c : Option Card)
    → live? c ≡ true
    → soon? (passes es) c ≡ true
    → is_some (run es c) ≡ false
unfolding run
run-ends [] c live h = ground (arith, soon?_zero c live)
run-ends (click ∷ es) c live h =
    run-ends es (happened click c) (happened-live click c live) (soon?-click (passes es) c h)
run-ends (pass ∷ es) c live h =
    run-ends es (happened pass c) (happened-live pass c live)
      (ground (arith, soon?-pass (passes es) c))

run-idle : (n : ℕ) (c : Option Card) → live? c ≡ true → is_some (run (idle n) c) ≡ not (soon? n c)
unfolding run
run-idle zero c live = ground (arith, soon?_zero c live)
run-idle (suc n) c live =
    ground (arith, run-idle n (happened pass c) (happened-live pass c live), soon?-pass n c)

-- The milliseconds from a toast's appearance to its end.
abbrev pub lifetime : ToastMessage → ℕ
lifetime t = let d = or_else t.duration 5000 in if leb d 0 then 301 else d + 300

soon-appeared : (n : ℕ) (t : ToastMessage) → soon n (appeared t) ≡ leb (lifetime t) n
unfolding any_within
soon-appeared n t = ground arith

soon-click : (n : ℕ) (c : Option Card) → leb 300 n ≡ true → soon? n (happened click c) ≡ true
unfolding happened clicked any_within
soon-click n none h = refl
soon-click n (some c) h = ground arith

appeared-live : (t : ToastMessage) → live? (some (appeared t)) ≡ true
unfolding any_within
appeared-live t = refl

-- A toast that nobody clicks stays for its duration, or five seconds, and 300 milliseconds more, to
-- the millisecond. Whatever is clicked, it is gone by then, and 300 milliseconds after a click it is
-- gone too, whatever happened before and happens after.
pub run-appeared :
    (t : ToastMessage) (n : ℕ) (before es : List Event)
    → let shown = some (appeared t) in
      (is_some (run (idle n) shown) ≡ ltb n (lifetime t))
      × ((is_some (run es shown) && leb (lifetime t) (passes es)) ≡ false)
      × ((is_some (run es (happened click (run before shown))) && leb 300 (passes es)) ≡ false)
run-appeared t n before es =
    let live = appeared-live t in
    (
      ground (arith, run-idle n (some (appeared t)) live, soon-appeared n t),
      elim (Bool-cases (leb (lifetime t) (passes es))) [
        | inl late ↦
            ground
              (arith, run-ends es (some (appeared t)) live (soon-appeared (passes es) t ∙ late))
        | inr early ↦ ground arith
      ],
      elim (Bool-cases (leb 300 (passes es))) [
        | inl late ↦
            let c = run before (some (appeared t)) in
            ground (
              arith,
              run-ends es (happened click c)
                  (happened-live click c (run-live before (some (appeared t)) live))
                  (soon-click (passes es) c late),
            )
        | inr early ↦ ground arith
      ],
    )
