-- ===== src/SignIn.antt =====
-- frontend/src/components/auth: what the forms `LoginForm` and `RegisterForm` do with entries that
-- their schemas have let through, on the pages app/login and app/register, whose guard takes a form
-- off the page while the provider is loading. The identity of a new toast is an argument.
pub mod Laws
mod Tests
use microsvc.Prelude.{
  String, Bool, true, false, Option, none, some, List, [], ◌∷◌, Json, str, obj, Fields, end, field,
  find, or_default, or_else, str_eq, ◌||◌, if◌then◌else◌,
}
use microsvc.Web.{Cookies}
use microsvc.Token.{Platform}
use microsvc.Session.{Session, login, register, loading}
use microsvc.Guard.{Props, spinner, nothing, children, render}
use microsvc.Toasts.{
  ToastMessage, ToastType, success, error, info, warning, remove_toast, show_error, show_success,
}

-- What a form keeps while it is on the page.
pub record Form : Type 0 where
  pub toasts : List ToastMessage
  pub is_submitting : Bool

abbrev pub fresh : Form
fresh = record { toasts = []; is_submitting = false }

-- The page of a form. `form` is `none` while the form is not on the page; what it kept is lost then.
-- `next` is the last address that the form has gone to, or will go to by its timer.
pub record Page (Jar : Type 0) : Type 0 where
  pub session : Session Jar
  pub form : Option Form
  pub next : Option String

abbrev pub is_error : ToastType → Bool
is_error success = false
is_error error = true
is_error info = false
is_error warning = false

-- `toasts.forEach(…)`, which closes every error of the first list in the second.
pub close_errors : List ToastMessage → List ToastMessage → List ToastMessage
close_errors [] ts = ts
close_errors (u ∷ us) ts = close_errors us (if is_error u.type then remove_toast u.id ts else ts)

-- The fields of a record but for some.
unfoldable pub without : (String → Bool) → Fields → Fields
without left_out end = end
without left_out (field k v rest) =
    let kept = without left_out rest in if left_out k then kept else field k v kept

-- The two fields that `onSubmit` of `RegisterForm` takes out.
abbrev pub is_taken_out : String → Bool
is_taken_out k = str_eq k "confirmPassword" || str_eq k "seedAccountData"

abbrev pub others : Fields → Fields
others = without is_taken_out

-- `{ ...fields, seedAccountData }`
abbrev pub followed : Fields → Option Json → Fields
followed end none = end
followed end (some v) = field "seedAccountData" v end
followed (field k v rest) last = field k v (followed rest last)

-- `{ ...registrationData, seedAccountData }`
abbrev pub registration_data : Fields → Fields
registration_data data' = followed (others data') (find "seedAccountData" data')

-- The props of the guard of app/login/page.tsx and app/register/page.tsx.
abbrev pub guest_props : Props
guest_props = record { require_auth = false; redirect_to = "/login" }

-- A form that tells its reader something; a form that is gone tells nobody.
abbrev pub told : (List ToastMessage → List ToastMessage) → Option Form → Option Form
told add none = none
told add (some form) = some (record form { toasts = add form.toasts })

abbrev pub submitting : Bool → Option Form → Option Form
submitting b none = none
submitting b (some form) = some (record form { is_submitting = b })

module _ {Jar : Type 0} where
  -- The page as its guard shows it: a form that comes back is a new one.
  pub guarded : Page Jar → Page Jar
  unfolding render
  guarded page = record page {
    form = elim (render guest_props page.session.is_loading page.session.is_authenticated) [
      | spinner ↦ none
      | nothing ↦ none
      | children ↦ some (or_else page.form fresh)
    ];
  }

module _ {Jar : Type 0} ⦃C : Cookies Jar⦄ where
  -- `onSubmit` of `LoginForm`: the form first, then the page while the provider is loading, then the
  -- answer, for the form that asked, and the page with the provider done. The provider reports its
  -- errors and throws nothing.
  pub submit_login : Platform → String → Json → Page Jar → Page Jar
  unfolding close_errors guarded
  submit_login p id credentials page =
      let (r, s) = login p credentials page.session in
      let asked = guarded (record page {
        session = loading page.session;
        form = told (λ ts. close_errors ts ts) (submitting true page.form);
      }) in
      if r.success
      then guarded (record page {
        session = s;
        form = submitting false asked.form;
        next = some "/dashboard";
      })
      else guarded (record page {
        session = s;
        form = submitting false (
            told
              (show_error id "Sign in failed"
                (some (
                  or_default (some r.message) (str "Please check your credentials and try again.")))
                none)
              asked.form);
      })

  -- `onSubmit` of `RegisterForm`, likewise.
  pub submit_registration : String → Fields → Page Jar → Page Jar
  unfolding guarded
  submit_registration id data' page =
      let (r, s) = register (obj (registration_data data')) page.session in
      let asked =
        guarded
          (record page { session = loading page.session; form = submitting true page.form }) in
      if r.success
      then guarded (record page {
        session = s;
        form = submitting false (
            told
              (show_success id "Account created successfully!"
                (some (str "Please sign in with your new account.")) (some 4000))
              asked.form);
        next = some "/login";
      })
      else guarded (record page {
        session = s;
        form = submitting false (
            told
              (show_error id "Registration failed"
                (some (
                  or_default (some r.message) (str "Please check your information and try again.")))
                none)
              asked.form);
      })
