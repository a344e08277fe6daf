-- ===== src/Pages/Samples.antt =====
-- What the pages use of the language, for the tests: every amount is shown as the same text, and one
-- currency has no format.
use microsvc.Prelude.{
  ℕ, ◌+◌, String, Option, none, some, Json, null, bool, num, str, arr, obj, end, field, str_eq,
  if◌then◌else◌,
}
use microsvc.Pages.{Display}

abbrev money_of : Json → Option String
money_of (str code) = if str_eq code "BAD" then none else some "$1.00"
money_of null = none
money_of (bool b) = none
money_of (num n) = none
money_of (arr items) = none
money_of (obj fields) = none

abbrev pub display : Display ℕ
display = record {
  text = λ v. "7";
  parse_int = λ s. 7;
  lower = λ s. s;
  upper = λ s. s;
  first = λ s. s;
  rest = λ s. "";
  indexed = λ v. end;
  zero_value = 0;
  value = λ v. 1;
  plus = λ a b. a + b;
  money = λ code v. money_of code;
  moment = λ v. "today";
  day = λ v. "today";
}

abbrev pub deposit : Json
deposit = obj (field "type" (str "DEPOSIT") (field "status" (str "FAILED") end))
