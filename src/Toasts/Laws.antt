-- ===== src/Toasts/Laws.antt =====
-- Toasts come and go without disturbing one another.
use mathlib.Core.List.{◌++◌}
use microsvc.Prelude.{
  ℕ, String, false, Option, Json, List, [], ◌∷◌, ◌≡◌, refl, arith, str_eq, eq_refl,
}
use microsvc.Prelude.Lists.{All, append_nil}
use microsvc.Toasts.{ToastType, ToastMessage, add_toast, remove_toast}

-- No toast of the list has that identity.
abbrev pub IsFresh : String → List ToastMessage → Type 0
IsFresh id = All (λ t. str_eq t.id id ≡ false)

remove_toast-eq_of_fresh :
    (id : String) (toasts : List ToastMessage) → IsFresh id toasts → remove_toast id toasts ≡ toasts
unfolding remove_toast
remove_toast-eq_of_fresh id [] h = refl
remove_toast-eq_of_fresh id (t ∷ ts) (new, h) = ground (arith, remove_toast-eq_of_fresh id ts h)

remove_toast-append :
    (id : String) (ts us : List ToastMessage)
    → remove_toast id (ts ++ us) ≡ remove_toast id ts ++ remove_toast id us
unfolding remove_toast
remove_toast-append id [] us = refl
remove_toast-append id (t ∷ ts) us = ground (arith, remove_toast-append id ts us)

remove_toast_same :
    (id : String) (type : ToastType) (title : String) (message : Option Json) (duration : Option ℕ)
    → remove_toast id (add_toast id type title message duration []) ≡ []
unfolding remove_toast add_toast
remove_toast_same id type title message duration = ground (arith, eq_refl id)

remove_toast_other :
    (id other : String) (type : ToastType) (title : String) (message : Option Json)
    (duration : Option ℕ)
    → str_eq other id ≡ false
    → remove_toast id (add_toast other type title message duration [])
      ≡ add_toast other type title message duration []
unfolding remove_toast add_toast
remove_toast_other id other type title message duration h = ground arith

-- Closing the toast that was just shown, whose identity no other toast has, leaves the list as it
-- was before; closing one and showing one of another identity may change places.
pub remove_toast-add_toast :
    (id other : String) (type : ToastType) (title : String) (message : Option Json)
    (duration : Option ℕ) (toasts : List ToastMessage)
    → IsFresh id toasts
    → str_eq other id ≡ false
    → (remove_toast id (add_toast id type title message duration toasts) ≡ toasts)
      × (remove_toast id (add_toast other type title message duration toasts)
          ≡ add_toast other type title message duration (remove_toast id toasts))
unfolding add_toast
remove_toast-add_toast id other type title message duration toasts fresh differs = (
  rw (
    remove_toast-append id toasts,
    remove_toast-eq_of_fresh id toasts fresh,
    remove_toast_same id type title message duration,
    append_nil toasts,
  ),
  rw (
    remove_toast-append id toasts,
    remove_toast_other id other type title message duration differs,
  ),
)

-- Toasts may be closed in any order.
pub remove_toast_comm :
    (id other : String) (toasts : List ToastMessage)
    → remove_toast id (remove_toast other toasts) ≡ remove_toast other (remove_toast id toasts)
unfolding remove_toast
remove_toast_comm id other [] = refl
remove_toast_comm id other (t ∷ ts) = ground (arith, remove_toast_comm id other ts)
