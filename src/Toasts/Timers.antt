-- ===== src/Toasts/Timers.antt =====
-- frontend/src/components/ui/Toast.tsx: a toast on the page, with its timers, which are counted in
-- milliseconds. A timer of zero goes off at the next one, like a timer of one. When a toast is
-- closed it leaves the page; timers that it leaves behind close an identity that is gone.
pub mod Laws
mod Tests
use microsvc.Prelude.{
  ℕ, ◌-◌, String, Bool, true, false, leb, ◌||◌, Option, none, some, or_else, List, [], ◌∷◌, Json,
  truthy?, if◌then◌else◌,
}
use microsvc.Toasts.{ToastMessage, ToastType, success, error, info, warning}

pub data Icon : Type 0 where
  check_circle alert_circle info_circle : Icon

pub data Tone : Type 0 where
  green red yellow blue : Tone

-- `getIcon`
abbrev pub icon_of : ToastType → Icon
icon_of success = check_circle
icon_of error = alert_circle
icon_of warning = alert_circle
icon_of info = info_circle

-- `getBackgroundColor`, `getTitleColor` and `getMessageColor`, which are shades of one color.
abbrev pub tone_of : ToastType → Tone
tone_of success = green
tone_of error = red
tone_of warning = yellow
tone_of info = blue

-- `timer` is the one that is set when the toast appears, while it runs; `closing` are the timers of
-- `setTimeout(() => onClose(id), 300)`.
pub record Card : Type 0 where
  pub toast : ToastMessage
  pub is_visible : Bool
  pub timer : Option ℕ
  pub closing : List ℕ

abbrev pub appeared : ToastMessage → Card
appeared t = record {
  toast = t;
  is_visible = true;
  timer = some (or_else t.duration 5000);
  closing = [];
}

pub record View : Type 0 where
  pub icon : Icon
  pub tone : Tone
  pub is_opaque : Bool
  pub title : String
  pub message : Option Json

pub render : Card → View
render c = record {
  icon = icon_of c.toast.type;
  tone = tone_of c.toast.type;
  is_opaque = c.is_visible;
  title = c.toast.title;
  message = if truthy? c.toast.message then c.toast.message else none;
}

-- A click on the cross.
pub clicked : Card → Card
clicked c = record c { is_visible = false; closing = 300 ∷ c.closing }

-- The timers after a millisecond, and whether one of them goes off within `n` of them.
unfoldable pub aged : List ℕ → List ℕ
aged [] = []
aged (m ∷ ms) = (m - 1) ∷ aged ms

unfoldable pub any_within : ℕ → List ℕ → Bool
any_within n [] = false
any_within n (m ∷ ms) = leb m n || any_within n ms

-- A millisecond, `none` when it closes the toast.
pub passed : Card → Option Card
unfolding aged any_within
passed c =
    let closing = aged c.closing in
    if any_within 0 closing then none else elim (c.timer) [
      | none ↦ some (record c { closing = closing })
      | some k ↦
          if leb k 1
          then some (record c { is_visible = false; timer = none; closing = 300 ∷ closing })
          else some (record c { timer = some (k - 1); closing = closing })
    ]

pub data Event : Type 0 where
  click pass : Event

unfoldable pub happened : Event → Option Card → Option Card
unfolding clicked passed
happened e none = none
happened click (some c) = some (clicked c)
happened pass (some c) = passed c

-- The first event of the list is the first one.
unfoldable pub run : List Event → Option Card → Option Card
unfolding happened
run [] c = c
run (e ∷ es) c = run es (happened e c)
