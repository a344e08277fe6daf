-- ===== src/Toasts.antt =====
-- frontend/src/components/ui/ToastContainer.tsx: the hook `useToasts`. The identity of a toast,
-- which the code draws at random, is an argument.
pub mod Laws
pub mod Timers
use mathlib.Core.List.{◌++◌}
use microsvc.Prelude.{ℕ, String, Bool, Option, Json, List, [], ◌∷◌, str_eq, if◌then◌else◌}

pub data ToastType : Type 0 where
  success error info warning : ToastType

pub record ToastMessage : Type 0 where
  pub id : String
  pub type : ToastType
  pub title : String
  pub message : Option Json
  pub duration : Option ℕ

unfoldable pub add_toast :
    String → ToastType → String → Option Json → Option ℕ → List ToastMessage → List ToastMessage
add_toast id type title message duration toasts =
    toasts
    ++ (record { id = id; type = type; title = title; message = message; duration = duration }) ∷ []

unfoldable pub remove_toast : String → List ToastMessage → List ToastMessage
remove_toast id [] = []
remove_toast id (t ∷ ts) =
    let rest = remove_toast id ts in if str_eq t.id id then rest else t ∷ rest

pub show_success : String → String → Option Json → Option ℕ → List ToastMessage → List ToastMessage
unfolding add_toast
show_success id = add_toast id success

unfoldable pub show_error :
    String → String → Option Json → Option ℕ → List ToastMessage → List ToastMessage
unfolding add_toast
show_error id = add_toast id error

pub show_info : String → String → Option Json → Option ℕ → List ToastMessage → List ToastMessage
unfolding add_toast
show_info id = add_toast id info

pub show_warning : String → String → Option Json → Option ℕ → List ToastMessage → List ToastMessage
unfolding add_toast
show_warning id = add_toast id warning
