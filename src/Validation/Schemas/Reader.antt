-- ===== src/Validation/Schemas/Reader.antt =====
-- The library that reads the schemas of frontend/src/lib/utils/validation.ts, zod: the parameter
-- `Zod`, and `ZodLaws`, what it documents of the parts that are used.
use microsvc.Prelude.{
  String, Bool, true, false, not, ◌&&◌, ◌||◌, leb, Option, none, some, List, [], ◌∷◌, Json, bool,
  num, str, obj, Number, get, ◌≡◌,
}
use microsvc.Prelude.Lists.{length}
use microsvc.Forms.{below}
use microsvc.Pages.{is_text}
use microsvc.Validation.{utf16}
use microsvc.Validation.Schemas.{
  Schema, Shape, TextRule, NumberRule, matches, min, max, regex, email, at_least, at_most, text,
  number, boolean, one_of, optional, with_default, object, refined, no_more, entry,
}

-- What zod makes of a schema: whether it accepts a value, `none` for one that is missing.
pub record Zod : Type 0 where
  pub accepts : Schema → Option Json → Bool
  pub is_email : String → Bool

abbrev pub rule_ok : (is_email : String → Bool) → TextRule → String → Bool
rule_ok is_email (min n message) s = leb n (length (utf16 s))
rule_ok is_email (max n message) s = leb (length (utf16 s)) n
rule_ok is_email (regex pattern message) s = matches pattern s
rule_ok is_email (email message) s = is_email s

abbrev pub rules_ok : (is_email : String → Bool) → List TextRule → String → Bool
rules_ok is_email [] s = true
rules_ok is_email (rule ∷ rules) s = rule_ok is_email rule s && rules_ok is_email rules s

abbrev pub number_ok : List NumberRule → Number → Bool
number_ok [] n = true
number_ok (at_least low message ∷ rules) n = not (below n low) && number_ok rules n
number_ok (at_most high message ∷ rules) n = not (below high n) && number_ok rules n

abbrev pub is_one_of : List String → Option Json → Bool
is_one_of [] v = false
is_one_of (s ∷ choices) v = is_text s v || is_one_of choices v

-- A value that is a text and passes a test; likewise for numbers, truth values and objects.
abbrev pub is_text_with : (String → Bool) → Option Json → Bool
is_text_with test (some (str s)) = test s
is_text_with test v = false

abbrev pub is_number_with : (Number → Bool) → Option Json → Bool
is_number_with test (some (num n)) = test n
is_number_with test v = false

abbrev pub is_bool : Option Json → Bool
is_bool (some (bool b)) = true
is_bool v = false

abbrev pub is_object : Option Json → Bool
is_object (some (obj fields)) = true
is_object v = false

-- The documented behaviour of zod: all the rules of a text or a number hold; a field of an object is
-- read by its name, and fields without a name in the schema are let through; a refinement is tested
-- besides what it refines.
pub record ZodLaws (z : Zod) : Type 0 where
  pub accepts-text :
      (rules : List TextRule) (v : Option Json)
      → z.accepts (text rules) v ≡ is_text_with (rules_ok z.is_email rules) v
  pub accepts-number :
      (rules : List NumberRule) (v : Option Json)
      → z.accepts (number rules) v ≡ is_number_with (number_ok rules) v
  pub accepts-boolean : (v : Option Json) → z.accepts boolean v ≡ is_bool v
  pub accepts-one_of :
      (choices : List String) (message : Option String) (v : Option Json)
      → z.accepts (one_of choices message) v ≡ is_one_of choices v
  pub accepts-no_more : (v : Option Json) → z.accepts (object no_more) v ≡ is_object v
  pub accepts-entry :
      (key : String) (s : Schema) (rest : Shape) (v : Json)
      → z.accepts (object (entry key s rest)) (some v)
        ≡ (z.accepts s (get key v) && z.accepts (object rest) (some v))
  pub accepts-optional :
      (s : Schema) (v : Json)
      → (z.accepts (optional s) none ≡ true)
        × (z.accepts (optional s) (some v) ≡ z.accepts s (some v))
  pub accepts-with_default :
      (s : Schema) (d v : Json)
      → (z.accepts (with_default s d) none ≡ true)
        × (z.accepts (with_default s d) (some v) ≡ z.accepts s (some v))
  pub accepts-refined :
      (s : Schema) (test : Json → Bool) (message path : String) (v : Json)
      → z.accepts (refined s test message path) (some v) ≡ (z.accepts s (some v) && test v)
