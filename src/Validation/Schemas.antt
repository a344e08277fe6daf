-- ===== src/Validation/Schemas.antt =====
-- frontend/src/lib/utils/validation.ts: the schemas of the forms, as values.
pub mod Reader
pub mod Laws
mod Tests
use microsvc.Prelude.{
  ℕ, String, Bool, true, false, not, ◌&&◌, ◌||◌, leb, ◌==◌, Option, none, some, List, [], ◌∷◌, Json,
  null, bool, num, str, arr, obj, Number, dec, get, find, truthy?, str_eq, if◌then◌else◌, ◌≡◌, ◌⧺◌,
}
use microsvc.Prelude.Lists.{length}
use microsvc.Forms.{below}
use microsvc.Pages.{is_text}
use microsvc.Validation.{
  utf16, all, is_lower, is_upper, is_digit, is_space, is_valid_phone, is_valid_currency_code,
}

-- The patterns: `/^[a-zA-Z0-9_]+$/`, `/^[A-Z]{3}$/`, `/^[a-zA-Z\s'-]+$/` and `/^\+?[1-9]\d{1,14}$/`.
pub data Pattern : Type 0 where
  word_pattern currency_pattern name_pattern phone_pattern : Pattern

abbrev pub is_word : ℕ → Bool
is_word c = is_lower c || (is_upper c || (is_digit c || c == b'_'))

abbrev pub is_name : ℕ → Bool
is_name c = is_lower c || (is_upper c || (is_space c || (c == b'\'' || c == b'-')))

pub matches : Pattern → String → Bool
matches word_pattern s = let us = utf16 s in leb 1 (length us) && all is_word us
matches currency_pattern s = is_valid_currency_code s
matches name_pattern s = let us = utf16 s in leb 1 (length us) && all is_name us
matches phone_pattern s = is_valid_phone s

-- A rule with the message of its failure, where it has its own.
pub data TextRule : Type 0 where
  min : ℕ → String → TextRule
  max : ℕ → String → TextRule
  regex : Pattern → String → TextRule
  email : String → TextRule

pub data NumberRule : Type 0 where
  at_least : Number → Option String → NumberRule
  at_most : Number → Option String → NumberRule

-- `refined` has the message and the path of its failure.
mutual
  pub data Schema : Type 0 where
    text : List TextRule → Schema
    number : List NumberRule → Schema
    boolean : Schema
    one_of : List String → Option String → Schema
    optional : Schema → Schema
    with_default : Schema → Json → Schema
    object : Shape → Schema
    refined : Schema → (Json → Bool) → String → String → Schema

  pub data Shape : Type 0 where
    no_more : Shape
    entry : String → Schema → Shape → Shape

-- `v === w` of two properties that are texts or missing
abbrev pub same_text : Option Json → Option Json → Bool
same_text none none = true
same_text none (some w) = false
same_text (some (str s)) w = is_text s w
same_text (some v) w = false

-- The forms of login and registration.
pub login_schema : Schema
login_schema = object (
    entry "usernameOrEmail"
      (text (min 1 "Username or email is required" ∷ max 255 "Username or email is too long" ∷ []))
      (entry "password"
        (text (min 1 "Password is required" ∷ min 8 "Password must be at least 8 characters" ∷ []))
        no_more))

pub register_schema : Schema
register_schema =
    refined
      (object (
        entry "username"
          (text (
            min 1 "Username is required"
            ∷ min 3 "Username must be at least 3 characters"
            ∷ max 50 "Username is too long"
            ∷ regex word_pattern "Username can only contain letters, numbers, and underscores"
            ∷ []))
          (entry "email"
            (text (
              min 1 "Email is required"
              ∷ email "Please enter a valid email address"
              ∷ max 255 "Email is too long"
              ∷ []))
            (entry "password"
              (text (
                min 1 "Password is required"
                ∷ min 8 "Password must be at least 8 characters"
                ∷ max 128 "Password is too long"
                ∷ []))
              (entry "confirmPassword" (text (min 1 "Password confirmation is required" ∷ []))
                (entry "seedAccountData" boolean no_more))))))
      (λ data'. same_text (get "password" data') (get "confirmPassword" data'))
      "Passwords do not match" "confirmPassword"

-- The optional currency of an account or a transaction, dollars by default.
abbrev currency_rules : List TextRule
currency_rules =
    min 3 "Currency code must be 3 characters"
    ∷ max 3 "Currency code must be 3 characters"
    ∷ regex currency_pattern "Currency code must be uppercase letters"
    ∷ []

pub create_account_schema : Schema
create_account_schema = object (
    entry "accountType"
      (one_of ("CHECKING" ∷ "SAVINGS" ∷ "CREDIT" ∷ "INVESTMENT" ∷ [])
        (some "Account type is required"))
      (entry "initialBalance"
        (optional (
          number (
            at_least (dec false 0 0) (some "Initial balance cannot be negative")
            ∷ at_most (dec false 1000000 0) (some "Initial balance cannot exceed $1,000,000")
            ∷ [])))
        (entry "currency" (with_default (optional (text currency_rules)) (str "USD")) no_more)))

pub create_transaction_schema : Schema
create_transaction_schema =
    refined
      (object (
        entry "accountId" (number (at_least (dec false 1 0) (some "Account is required") ∷ [])) (
          entry "toAccountId" (optional (number [])) (
            entry "type"
              (one_of ("DEPOSIT" ∷ "WITHDRAWAL" ∷ "TRANSFER" ∷ [])
                (some "Transaction type is required"))
              (entry "amount"
                (number (
                  at_least (dec false 1 2) (some "Amount must be greater than 0")
                  ∷ at_most (dec false 100000 0) (some "Amount cannot exceed $100,000")
                  ∷ []))
                (entry "currency" (with_default (optional (text currency_rules)) (str "USD")) (
                  entry "description"
                    (text
                      (min 1 "Description is required" ∷ max 255 "Description is too long" ∷ []))
                    no_more)))))))
      (λ data'.
        not (is_text "TRANSFER" (get "type" data') && not (truthy? (get "toAccountId" data'))))
      "Destination account is required for transfers" "toAccountId"

-- The name of a person, first or last.
abbrev person_rules : String → List TextRule
person_rules name =
    min 1 (name ⧺ " is required")
    ∷ max 50 (name ⧺ " is too long")
    ∷ regex name_pattern (name ⧺ " can only contain letters, spaces, hyphens, and apostrophes")
    ∷ []

pub update_profile_schema : Schema
update_profile_schema = object (
    entry "firstName" (optional (text (person_rules "First name"))) (
      entry "lastName" (optional (text (person_rules "Last name"))) (
        entry "phone"
          (optional (text (regex phone_pattern "Please enter a valid phone number" ∷ [])))
          (entry "email"
            (optional (
              text (email "Please enter a valid email address" ∷ max 255 "Email is too long" ∷ [])))
            no_more))))

pub change_password_schema : Schema
change_password_schema =
    refined
      (object (
        entry "currentPassword" (text (min 1 "Current password is required" ∷ [])) (
          entry "newPassword"
            (text (
              min 8 "New password must be at least 8 characters"
              ∷ max 128 "New password is too long"
              ∷ []))
            (entry "confirmPassword" (text (min 1 "Password confirmation is required" ∷ []))
              no_more))))
      (λ data'. same_text (get "newPassword" data') (get "confirmPassword" data'))
      "Passwords do not match" "confirmPassword"

abbrev maybe_text : Schema
maybe_text = optional (text [])

abbrev maybe_amount : Schema
maybe_amount = optional (number (at_least (dec false 0 0) none ∷ []))

pub search_schema : Schema
search_schema = object (
    entry "query"
      (text (min 1 "Search query is required" ∷ max 255 "Search query is too long" ∷ []))
      (entry "filters"
        (optional (
          object (
            entry "type" (optional (one_of ("ACCOUNT" ∷ "TRANSACTION" ∷ "USER" ∷ []) none)) (
              entry "dateRange"
                (optional (object (entry "from" maybe_text (entry "to" maybe_text no_more))))
                (entry "amount"
                  (optional (object (entry "min" maybe_amount (entry "max" maybe_amount no_more))))
                  no_more)))))
        no_more))

pub contact_schema : Schema
contact_schema = object (
    entry "name" (text (min 1 "Name is required" ∷ max 100 "Name is too long" ∷ [])) (
      entry "email"
        (text (email "Please enter a valid email address" ∷ max 255 "Email is too long" ∷ []))
        (entry "subject" (text (min 1 "Subject is required" ∷ max 200 "Subject is too long" ∷ [])) (
          entry "message"
            (text (
              min 10 "Message must be at least 10 characters"
              ∷ max 1000 "Message is too long"
              ∷ []))
            no_more))))

pub preferences_schema : Schema
preferences_schema = object (
    entry "theme" (optional (one_of ("light" ∷ "dark" ∷ []) none)) (
      entry "language"
        (optional (
          text (
            min 2 "Language code must be at least 2 characters"
            ∷ max 5 "Language code is too long"
            ∷ [])))
        (entry "currency" (optional (text currency_rules)) (
          entry "notifications"
            (optional (
              object (
                entry "email" (optional boolean)
                  (entry "sms" (optional boolean) (entry "push" (optional boolean) no_more)))))
            no_more))))
