-- ===== src/Pages.antt =====
-- frontend/src/app: the pages that load lists and show them, and the assistant. What a page hands to
-- React is a value, its view; `none` is a rendering that throws. Colours, sizes and pictures are left
-- out, and so are the lines of the console.
pub mod Laws
mod Samples
pub mod Transactions
pub mod Accounts
pub mod Details
pub mod Assistant
pub mod Dashboard
pub mod Navigation
use microsvc.Prelude.{
  ℕ, suc, ◌+◌, String, Bool, true, false, Option, none, some, List, [], ◌∷◌, Json, null, bool, num,
  str, arr, obj, Items, nil, cons, Fields, end, field, get, str_eq, not, ltb, ◌==◌, ◌&&◌, Number,
  dec, is_nonempty, find, if◌then◌else◌, ◌⧺◌,
}
use microsvc.Token.{Platform, number_of}

-- What the pages use of the language's library. `Value` is what `+` makes of a number and a value
-- that was read.
pub record Display (Value : Type 0) : Type 0 where
  -- a value in a template
  pub text : Json → String
  pub parse_int : String → ℕ
  -- `toLowerCase`, `toUpperCase`, `charAt(0)` and `slice(1)`
  pub lower : String → String
  pub upper : String → String
  pub first : String → String
  pub rest : String → String
  -- the keys and values that a text or an array spreads into an object
  pub indexed : Json → Fields
  pub zero_value : Value
  pub value : Option Json → Value
  pub plus : Value → Value → Value
  -- `Intl.NumberFormat` for a code; `none` is the exception of a code that is none
  pub money : Json → Value → Option String
  -- `toLocaleDateString`, with the time of day or without it
  pub moment : Option Json → String
  pub day : Option Json → String

-- `v.length === 0` and `v.length > 0` of what a page takes for an array: it has no elements, it is an
-- array that has, it is something else that has a length, or neither test holds.
pub data Measure : Type 0 where
  no_elements : Measure
  elements : Items → Measure
  other_elements : Measure
  unmeasured : Measure

abbrev is_positive : Option Number → Bool
is_positive none = false
is_positive (some (dec sign digits places)) = not sign && ltb 0 digits

abbrev is_zero : Json → Bool
is_zero null = false
is_zero (bool b) = false
is_zero (num (dec sign digits places)) = digits == 0
is_zero (str s) = false
is_zero (arr items) = false
is_zero (obj fields) = false

pub measured : Platform → Json → Measure
measured p null = unmeasured
measured p (bool b) = unmeasured
measured p (num n) = unmeasured
measured p (str s) = if is_nonempty s then other_elements else no_elements
measured p (arr nil) = no_elements
measured p (arr (cons v items)) = elements (cons v items)
measured p (obj fields) = elim (find "length" fields) [
  | none ↦ unmeasured
  | some v ↦
      if is_zero v
      then no_elements
      else if is_positive (number_of p v)
      then other_elements
      else unmeasured
]

-- What may throw.
infixl 5 ◌>>=◌
abbrev pub ◌>>=◌ {ℓ κ} : {A : Type ℓ} {B : Type κ} → Option A → (A → Option B) → Option B
none >>= f = none
some a >>= f = f a

-- `v === 'text'`
abbrev pub is_text : String → Option Json → Bool
is_text s none = false
is_text s (some null) = false
is_text s (some (bool b)) = false
is_text s (some (num n)) = false
is_text s (some (str t)) = str_eq t s
is_text s (some (arr items)) = false
is_text s (some (obj fields)) = false

-- A method of texts throws on any other value.
abbrev pub as_text : Option Json → Option String
as_text none = none
as_text (some null) = none
as_text (some (bool b)) = none
as_text (some (num n)) = none
as_text (some (str t)) = some t
as_text (some (arr items)) = none
as_text (some (obj fields)) = none

-- A method of arrays throws on any other value.
abbrev pub as_array : Json → Option Items
as_array null = none
as_array (bool b) = none
as_array (num n) = none
as_array (str s) = none
as_array (arr items) = some items
as_array (obj fields) = none

-- A property of `null` throws.
abbrev pub not_null : Json → Option Json
not_null null = none
not_null (bool b) = some (bool b)
not_null (num n) = some (num n)
not_null (str s) = some (str s)
not_null (arr items) = some (arr items)
not_null (obj fields) = some (obj fields)

-- Whether React shows a value as a child: an object, or a list that holds one, makes it throw.
unfoldable mutual
  pub is_child : Json → Bool
  is_child null = true
  is_child (bool b) = true
  is_child (num n) = true
  is_child (str s) = true
  is_child (arr items) = are_children items
  is_child (obj fields) = false

  pub are_children : Items → Bool
  are_children nil = true
  are_children (cons v items) = is_child v && are_children items

-- `{v}`
abbrev pub child : Option Json → Option (Option Json)
child none = some none
child (some v) = if is_child v then some (some v) else none

-- What React writes of a child among texts: nothing for `null` and truth values.
mutual
  pub child_text : (text : Json → String) → Json → Option String
  child_text text null = some ""
  child_text text (bool b) = some ""
  child_text text (num n) = some (text (num n))
  child_text text (str s) = some s
  child_text text (arr items) = children_text text items
  child_text text (obj fields) = none

  pub children_text : (text : Json → String) → Items → Option String
  children_text text nil = some ""
  children_text text (cons v items) =
      child_text text v >>= λ s. children_text text items >>= λ rest. some (s ⧺ rest)

-- `items.map(f)`, which throws where `f` does.
unfoldable pub mapped {ℓ} : {A : Type ℓ} → (Json → Option A) → Items → Option (List A)
mapped f nil = some []
mapped f (cons v items) = f v >>= λ a. mapped f items >>= λ rest. some (a ∷ rest)

unfoldable pub size : Items → ℕ
size nil = 0
size (cons v items) = suc (size items)

-- `v.key === 'text'` for an element that is not `null`.
abbrev pub has : String → String → Json → Option Bool
has key s v = not_null v >>= λ w. some (is_text s (get key w))

-- `items.filter((v) => v.key === 'text').length`
unfoldable pub count : String → String → Items → Option ℕ
count key s nil = some 0
count key s (cons v items) =
    has key s v >>= λ b. count key s items >>= λ n. some (if b then suc n else n)

module _ {Value : Type 0} (d : Display Value) where
  -- `items.reduce((sum, v) => sum + v.key, sum)`
  unfoldable pub sum : String → Value → Items → Option Value
  sum key total nil = some total
  sum key total (cons v items) =
      not_null v >>= λ w. sum key (d.plus total (d.value (get key w))) items

  -- `t.charAt(0).toUpperCase() + t.slice(1).toLowerCase()`
  abbrev pub capital : String → String
  capital t = d.upper (d.first t) ⧺ d.lower (d.rest t)

-- The colour of an amount, and the sign before it.
pub data Color : Type 0 where
  green red blue : Color

abbrev pub color_of : Option Json → Color
color_of type =
    if is_text "DEPOSIT" type then green else if is_text "WITHDRAWAL" type then red else blue

abbrev pub sign_of : Option Json → String
sign_of type = if is_text "DEPOSIT" type then "+" else "-"
