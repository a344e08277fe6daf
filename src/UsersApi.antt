-- ===== src/UsersApi.antt =====
-- frontend/src/lib/api/users.ts: the class `UsersAPI`. A file is named by a text.
use microsvc.Prelude.{ℕ, String, Option, [], ◌∷◌, ◌⧺◌, show, serialize, Json, str, obj, field, end}
use microsvc.Web.{Cookies, World, empty, json, form}
use microsvc.Client.{ApiResponse}
use microsvc.Client
use microsvc.AccountsApi.{page_entries, sorted_entries}

pub data UserStatus : Type 0 where
  active inactive suspended pending_verification : UserStatus

abbrev status_text : UserStatus → String
status_text active = "ACTIVE"
status_text inactive = "INACTIVE"
status_text suspended = "SUSPENDED"
status_text pending_verification = "PENDING_VERIFICATION"

-- `{ key: value }`
abbrev single : String → String → Json
single key value = obj (field key (str value) end)

module _ {Jar : Type 0} ⦃C : Cookies Jar⦄ where
  pub get_profile : World Jar → ApiResponse × World Jar
  get_profile = Client.get "/api/user-service/profile" []

  pub update_profile : Json → World Jar → ApiResponse × World Jar
  update_profile user = Client.put "/api/user-service/profile" (json user)

  pub change_password : Json → World Jar → ApiResponse × World Jar
  change_password passwords = Client.put "/api/user-service/password" (json passwords)

  pub get_user : ℕ → World Jar → ApiResponse × World Jar
  get_user id = Client.get ("/api/user-service/" ⧺ show id) []

  pub get_users : (page size : Option ℕ) → Option String → World Jar → ApiResponse × World Jar
  get_users page size sort =
      Client.get ("/api/user-service?" ⧺ serialize (sorted_entries page size sort)) []

  pub update_user_status : ℕ → UserStatus → World Jar → ApiResponse × World Jar
  update_user_status id status =
      Client.patch ("/api/user-service/" ⧺ show id ⧺ "/status")
        (json (single "status" (status_text status)))

  pub delete_user : ℕ → World Jar → ApiResponse × World Jar
  delete_user id = Client.delete ("/api/user-service/" ⧺ show id)

  pub search_users : String → (page size : Option ℕ) → World Jar → ApiResponse × World Jar
  search_users query page size =
      Client.get ("/api/user-service/search?" ⧺ serialize (("q", query) ∷ page_entries page size))
        []

  pub check_username_availability : String → World Jar → ApiResponse × World Jar
  check_username_availability username =
      Client.get ("/api/user-service/check-username?username=" ⧺ username) []

  pub check_email_availability : String → World Jar → ApiResponse × World Jar
  check_email_availability email = Client.get ("/api/user-service/check-email?email=" ⧺ email) []

  pub get_user_preferences : World Jar → ApiResponse × World Jar
  get_user_preferences = Client.get "/api/user-service/preferences" []

  pub update_user_preferences : Json → World Jar → ApiResponse × World Jar
  update_user_preferences preferences =
      Client.put "/api/user-service/preferences" (json preferences)

  pub send_email_verification : World Jar → ApiResponse × World Jar
  send_email_verification = Client.post "/api/user-service/verify-email" empty []

  pub verify_email : String → World Jar → ApiResponse × World Jar
  verify_email token =
      Client.post "/api/user-service/verify-email/confirm" (json (single "token" token)) []

  pub send_phone_verification : World Jar → ApiResponse × World Jar
  send_phone_verification = Client.post "/api/user-service/verify-phone" empty []

  pub verify_phone : String → World Jar → ApiResponse × World Jar
  verify_phone code =
      Client.post "/api/user-service/verify-phone/confirm" (json (single "code" code)) []

  pub request_password_reset : String → World Jar → ApiResponse × World Jar
  request_password_reset email =
      Client.post "/api/user-service/password-reset" (json (single "email" email)) []

  pub reset_password :
      (token new_password confirm_password : String) → World Jar → ApiResponse × World Jar
  reset_password token new_password confirm_password =
      Client.post "/api/user-service/password-reset/confirm"
        (json (
          obj (
            field "token" (str token) (
              field "newPassword" (str new_password)
                (field "confirmPassword" (str confirm_password) end)))))
        []

  pub enable_two_factor : World Jar → ApiResponse × World Jar
  enable_two_factor = Client.post "/api/user-service/2fa/enable" empty []

  pub confirm_two_factor : String → World Jar → ApiResponse × World Jar
  confirm_two_factor code =
      Client.post "/api/user-service/2fa/confirm" (json (single "code" code)) []

  pub disable_two_factor : String → World Jar → ApiResponse × World Jar
  disable_two_factor password =
      Client.post "/api/user-service/2fa/disable" (json (single "password" password)) []

  pub get_user_activity_log : (page size : Option ℕ) → World Jar → ApiResponse × World Jar
  get_user_activity_log page size =
      Client.get ("/api/user-service/activity?" ⧺ serialize (page_entries page size)) []

  pub get_user_sessions : World Jar → ApiResponse × World Jar
  get_user_sessions = Client.get "/api/user-service/sessions" []

  pub revoke_session : String → World Jar → ApiResponse × World Jar
  revoke_session id = Client.delete ("/api/user-service/sessions/" ⧺ id)

  pub revoke_all_other_sessions : World Jar → ApiResponse × World Jar
  revoke_all_other_sessions = Client.delete "/api/user-service/sessions/others"

  pub update_avatar : String → World Jar → ApiResponse × World Jar
  update_avatar file =
      Client.post "/api/user-service/avatar" (form (("avatar", file) ∷ []))
        (("Content-Type", "multipart/form-data") ∷ [])

  pub delete_avatar : World Jar → ApiResponse × World Jar
  delete_avatar = Client.delete "/api/user-service/avatar"
