-- ===== src/SignIn/Tests.antt =====
-- The forms of login and registration on a page of the samples.
use microsvc.Prelude.{
  String, false, none, some, str_eq, if◌then◌else◌, true, [], ◌∷◌, ◌≡◌, str, bool, obj, end, field,
  Fields, find, Json,
}
use microsvc.AuthApi.Laws.{request_of, register_config}
use microsvc.Session.{mounted}
use microsvc.Toasts.{error}
use microsvc.SignIn.{Page, submit_registration}
use microsvc.SignIn.Laws.{submit_registration-sent}
use microsvc.Samples.{Jar, cookies, guest_page, refuse}

-- A form that shows an error of before.
abbrev sample : Page Jar
sample = record {
  session = record (mounted (guest_page (refuse 401))) { is_loading = false };
  form = some (record {
    toasts =
        (record {
          id = "a1";
          type = error;
          title = "Sign in failed";
          message = none;
          duration = none;
        })
        ∷ [];
    is_submitting = false;
  });
  next = none;
}

abbrev credentials : Json
credentials = obj (field "usernameOrEmail" (str "ada") (field "password" (str "lovelace") end))

abbrev entries : Fields
entries = field "username" (str "ada") (
    field "password" (str "lovelace")
      (field "confirmPassword" (str "lovelace") (field "seedAccountData" (bool true) end)))

submit_registration-sent_example :
    (body : Fields) × ((submit_registration "b2" entries sample).session.world.sent
      ≡ request_of (register_config (obj body)) sample.session.world ∷ [])
    × ((key : String)
        → find key body ≡ (if str_eq key "confirmPassword" then none else find key entries))
submit_registration-sent_example = submit_registration-sent "b2" entries sample
