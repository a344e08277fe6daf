-- ===== src/Validation/Schemas/Tests.antt =====
-- A reader of the schemas that does what is documented, and entries that it accepts.
use microsvc.Prelude.{
  not, String, Bool, true, false, ◌&&◌, Option, none, some, Json, num, int, str, bool, obj, field,
  end, get, find, truthy?, Number, dec, ◌≡◌, refl,
}
use microsvc.Forms.{below}
use microsvc.Pages.{is_text}
use microsvc.Validation.{is_valid_email, is_valid_amount, is_valid_currency_code}
use microsvc.Validation.Schemas.{
  Schema, Shape, text, number, boolean, one_of, optional, with_default, object, refined, no_more,
  entry, login_schema, register_schema, create_transaction_schema, matches,
}
use microsvc.Validation.Schemas.Reader.{
  Zod, ZodLaws, rules_ok, number_ok, is_text_with, is_number_with, is_bool, is_object, is_one_of,
}
use microsvc.Validation.Schemas.Laws.{
  credentials, registered_can_login, create_transaction_schema_inv,
}

mutual
  accepts : Schema → Option Json → Bool
  accepts (text rules) v = is_text_with (rules_ok is_valid_email rules) v
  accepts (number rules) v = is_number_with (number_ok rules) v
  accepts boolean v = is_bool v
  accepts (one_of choices message) v = is_one_of choices v
  accepts (optional s) none = true
  accepts (optional s) (some v) = accepts s (some v)
  accepts (with_default s d) none = true
  accepts (with_default s d) (some v) = accepts s (some v)
  accepts (object shape) v = fits shape v
  accepts (refined s test message path) none = false
  accepts (refined s test message path) (some v) = accepts s (some v) && test v

  fits : Shape → Option Json → Bool
  fits no_more v = is_object v
  fits (entry key s rest) none = false
  fits (entry key s rest) (some v) = accepts s (get key v) && fits rest (some v)

abbrev zod : Zod
zod = record { accepts = accepts; is_email = is_valid_email }

zod_laws : ZodLaws zod
unfolding accepts
zod_laws = record {
  accepts-text = λ rules v. refl;
  accepts-number = λ rules v. refl;
  accepts-boolean = λ v. refl;
  accepts-one_of = λ choices message v. refl;
  accepts-no_more = λ v. refl;
  accepts-entry = λ key s rest v. refl;
  accepts-optional = λ s v. (refl, refl);
  accepts-with_default = λ s d v. (refl, refl);
  accepts-refined = λ s test message path v. refl;
}

abbrev registration : Json
registration = obj (
    field "username" (str "ada_l") (
      field "email" (str "a@b.c") (
        field "password" (str "secret88")
          (field "confirmPassword" (str "secret88") (field "seedAccountData" (bool true) end)))))

registered_can_login_example :
    (username address password : String) × (get "username" registration ≡ some (str username))
    × (get "email" registration ≡ some (str address))
    × (get "password" registration ≡ some (str password))
    × (zod.accepts login_schema (some (credentials zod zod_laws username password)) ≡ true)
    × (zod.accepts login_schema (some (credentials zod zod_laws address password)) ≡ true)
unfolding accepts register_schema get find matches is_valid_email
registered_can_login_example = registered_can_login zod zod_laws registration refl

abbrev movement : Json
movement = obj (
    field "accountId" (int 7) (
      field "toAccountId" (int 8) (
        field "type" (str "TRANSFER")
          (field "amount" (num (dec false 125 1)) (field "description" (str "rent") end)))))

create_transaction_schema_inv_example :
    (amount : Number) × (get "amount" movement ≡ some (num amount))
    × (below amount (dec false 1 2) ≡ false)
    × (below (dec false 100000 0) amount ≡ false)
    × (is_valid_amount (some amount) none none ≡ true)
    × ((is_text "TRANSFER" (get "type" movement) && not (truthy? (get "toAccountId" movement)))
        ≡ false)
unfolding accepts create_transaction_schema get find matches is_valid_currency_code
create_transaction_schema_inv_example = create_transaction_schema_inv zod zod_laws movement refl
