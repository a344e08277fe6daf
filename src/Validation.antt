-- ===== src/Validation.antt =====
-- frontend/src/lib/utils/validation.ts: `validationUtils`. A text is the list of its UTF-16 code
-- units, which is what `length` counts and what the patterns, without the flag `u`, run over.
pub mod Laws
pub mod Measures
pub mod Schemas
mod Tests
use mathlib.Core.List.{◌++◌}
use microsvc.Prelude.{
  ℕ, zero, suc, ◌+◌, ◌-◌, ◌*◌, ◌/◌, ◌%◌, ◌^◌, String, Bool, true, false, not, ◌&&◌, ◌||◌,
  if◌then◌else◌, List, [], ◌∷◌, leb, ltb, ◌==◌, codes, Number, dec, Option, none, some, or_else,
  is_some,
}
use microsvc.Prelude.Lists.{length}
use microsvc.Forms.{below}

-- The code units of a code point.
abbrev units : ℕ → List ℕ
units c =
    if ltb c 65536 then c ∷ [] else (55296 + (c - 65536) / 1024) ∷ (56320 + (c - 65536) % 1024) ∷ []

abbrev utf16_of : List ℕ → List ℕ
utf16_of [] = []
utf16_of (c ∷ cs) = units c ++ utf16_of cs

abbrev pub utf16 : String → List ℕ
utf16 text = utf16_of (codes text)

abbrev pub between : ℕ → ℕ → ℕ → Bool
between low high c = leb low c && leb c high

-- `[a-z]`, `[A-Z]`, `[0-9]` and `[^a-zA-Z0-9]`
abbrev pub is_lower : ℕ → Bool
is_lower = between b'a' b'z'

abbrev pub is_upper : ℕ → Bool
is_upper = between b'A' b'Z'

abbrev pub is_digit : ℕ → Bool
is_digit = between b'0' b'9'

abbrev pub is_special : ℕ → Bool
is_special c = not (is_lower c || (is_upper c || is_digit c))

-- `\s`
abbrev pub is_space : ℕ → Bool
is_space c =
    between 9 13 c
    || (c == 32
        || (c == 160
            || (c == 5760
                || (between 8192 8202 c
                    || (c == 8232
                        || (c == 8233
                            || (c == 8239 || (c == 8287 || (c == 12288 || c == 65279)))))))))

-- `[^\s@]`
abbrev pub is_plain : ℕ → Bool
is_plain c = not (is_space c || c == b'@')

abbrev pub any : (ℕ → Bool) → List ℕ → Bool
any test [] = false
any test (c ∷ cs) = test c || any test cs

abbrev pub all : (ℕ → Bool) → List ℕ → Bool
all test [] = true
all test (c ∷ cs) = test c && all test cs

-- `/^[^\s@]+@[^\s@]+\.[^\s@]+$/`, by what has been read of it: nothing; some of the part before the
-- `@`; that part and the `@`; some of the host; the host and the first `.` that can end it; and
-- something behind that `.`.
pub data EmailState : Type 0 where
  local local_more host host_more top ended : EmailState

abbrev pub email_step : EmailState → ℕ → Option EmailState
email_step local c = if is_plain c then some local_more else none
email_step local_more c =
    if c == b'@' then some host else if is_plain c then some local_more else none
email_step host c = if is_plain c then some host_more else none
email_step host_more c = if c == b'.' then some top else if is_plain c then some host_more else none
email_step top c = if is_plain c then some ended else none
email_step ended c = if is_plain c then some ended else none

abbrev pub email_run : EmailState → List ℕ → Bool
email_run local [] = false
email_run local_more [] = false
email_run host [] = false
email_run host_more [] = false
email_run top [] = false
email_run ended [] = true
email_run st (c ∷ cs) = elim (email_step st c) [ none ↦ false | some st' ↦ email_run st' cs ]

pub is_valid_email : String → Bool
is_valid_email email = email_run local (utf16 email)

-- What follows the optional `+` of `/^\+?[1-9]\d{1,14}$/`.
abbrev pub phone_digits : List ℕ → Bool
phone_digits [] = false
phone_digits (c ∷ cs) =
    between b'1' b'9' c && (all is_digit cs && (leb 1 (length cs) && leb (length cs) 14))

abbrev pub phone_run : List ℕ → Bool
phone_run [] = false
phone_run (c ∷ cs) = if c == b'+' then phone_digits cs else phone_digits (c ∷ cs)

pub is_valid_phone : String → Bool
is_valid_phone phone = phone_run (utf16 phone)

-- `/^\d{10,20}$/`
pub is_valid_account_number : String → Bool
is_valid_account_number text =
    let us = utf16 text in all is_digit us && (leb 10 (length us) && leb (length us) 20)

-- `/^[A-Z]{3}$/`
pub is_valid_currency_code : String → Bool
is_valid_currency_code text = let us = utf16 text in all is_upper us && length us == 3

-- `amount >= min && amount <= max`; `none` is `NaN` for the amount, and the default for a bound.
pub is_valid_amount : Option Number → (low high : Option Number) → Bool
is_valid_amount none low high = false
is_valid_amount (some amount) low high =
    not (below amount (or_else low (dec false 1 2)))
    && not (below (or_else high (dec false 1000000 0)) amount)

-- The dates: `time` is `new Date(text).getTime()`, and `none` is `NaN`.
pub is_valid_date : (time : String → Option Number) → String → Bool
is_valid_date time date = is_some (time date)

-- `fromDate <= toDate`, which no invalid date meets.
abbrev in_order : Option Number → Option Number → Bool
in_order none to = false
in_order (some from) none = false
in_order (some from) (some to) = not (below to from)

pub is_valid_date_range : (time : String → Option Number) → (from to : String) → Bool
is_valid_date_range time from to = in_order (time from) (time to)

pub record Strength : Type 0 where
  pub score : ℕ
  pub feedback : List String

-- One of the five tests: a point, or a remark.
abbrev judged : Bool → String → Strength → Strength
judged true remark s = record { score = s.score + 1; feedback = s.feedback }
judged false remark s = record { score = s.score; feedback = s.feedback ++ remark ∷ [] }

pub get_password_strength : String → Strength
get_password_strength password =
    let us = utf16 password in
    judged (any is_special us) "Password should contain special characters" (
      judged (any is_digit us) "Password should contain numbers" (
        judged (any is_upper us) "Password should contain uppercase letters" (
          judged (any is_lower us) "Password should contain lowercase letters" (
            judged (leb 8 (length us)) "Password should be at least 8 characters long"
              (record { score = 0; feedback = [] })))))
