-- ===== src/Validation/Tests.antt =====
-- The theorems of the validation on concrete texts.
use microsvc.Prelude.{true, false, ◌≡◌, ◌↔◌, refl}
use microsvc.Validation.{
  is_valid_email, is_valid_phone, is_valid_account_number, is_valid_currency_code,
  get_password_strength, utf16,
}
use microsvc.Validation.Laws.{IsEmail, is_valid_email_iff}

is_valid_email_iff_example : (is_valid_email "a.b@c..d" ≡ true) ↔ IsEmail (utf16 "a.b@c..d")
is_valid_email_iff_example = is_valid_email_iff "a.b@c..d"

sample_email : is_valid_email "a.b@c..d" ≡ true
unfolding is_valid_email
sample_email = refl

sample_no_email : is_valid_email "a@b." ≡ false
unfolding is_valid_email
sample_no_email = refl

sample_phone : is_valid_phone "+4915112345678" ≡ true
unfolding is_valid_phone
sample_phone = refl

sample_account_number : is_valid_account_number "123456789" ≡ false
unfolding is_valid_account_number
sample_account_number = refl

sample_currency_code : is_valid_currency_code "EUR" ≡ true
unfolding is_valid_currency_code
sample_currency_code = refl

sample_score : (get_password_strength "secret").score ≡ 1
unfolding get_password_strength
sample_score = refl
