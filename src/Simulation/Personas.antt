-- ===== src/Simulation/Personas.antt =====
-- simulation-client/src/models/personas.js: the identities drawn from the tables.
pub mod Laws
mod Tables
unfoldable pub use Tables.*
use Prim.Native.Char.{Char, code}
use Prim.Native.String
use microsvc.Prelude.{
  ℕ, zero, suc, ◌+◌, ◌-◌, ◌*◌, ◌%◌, ◌&&◌, ◌||◌, String, Option, none, some, List, [], ◌∷◌, leb, ltb,
  lookup, or_else, if◌then◌else◌, ◌⧺◌, show,
}
use microsvc.Prelude.Lists.{length, get_elem?}
use microsvc.Simulation.Numbers.{Numbers}
use microsvc.Simulation.Actions.{Action, World, draw, now, pure, ◌>>=◌}

-- The text of one character, by its place.
abbrev letter : String → ℕ → String
letter String.[] i = ""
letter (String.◌∷◌ c s) zero = String.◌∷◌ c String.[]
letter (String.◌∷◌ c s) (suc i) = letter s i

-- What `slug` keeps of a character; the names of the tables are in ASCII.
abbrev slug_char : Char → String
slug_char c =
    if leb b'A' (code c) && leb (code c) b'Z'
    then letter "abcdefghijklmnopqrstuvwxyz" (code c - b'A')
    else if (leb b'a' (code c) && leb (code c) b'z') || (leb b'0' (code c) && leb (code c) b'9')
    then String.◌∷◌ c String.[]
    else ""

-- `value.toLowerCase().replace(/[^a-z0-9]+/g, '')`
pub slug : String → String
slug String.[] = ""
slug (String.◌∷◌ c s) = slug_char c ⧺ slug s

pub record Persona : Type 0 where
  pub username : String
  pub email : String
  pub first_name : String
  pub last_name : String
  pub display_name : String
  pub locale : String
  pub language : String

-- `index.toString().padStart(3, '0')`
abbrev padded : ℕ → String
padded n = if ltb n 10 then "00" ⧺ show n else if ltb n 100 then "0" ⧺ show n else show n

abbrev address : String → String
address username = username ⧺ "@northbridge.example"

abbrev persona : ℕ → String → Profile → String → String → Persona
persona index locale profile first last =
    let username : String = slug first ⧺ "." ⧺ slug last ⧺ "." ⧺ padded index in
    record {
      username = username;
      email = address username;
      first_name = first;
      last_name = last;
      display_name = first ⧺ " " ⧺ last;
      locale = locale;
      language = profile.language;
    }

-- An element of a list by an index that `%` keeps within it.
abbrev at_cycle {ℓ} : {A : Type ℓ} → ℕ → List A → Option A
at_cycle i xs = get_elem? xs (i % length xs)

-- `none` is the exception of a name or a profile that is not there.
pub get_profile_for_user_number : ℕ → Option Persona
unfolding profile_by_locale slug show
get_profile_for_user_number user_number =
    let index : ℕ = if leb 1 user_number then user_number else 1 in
    elim (at_cycle (index - 1) locale_cycle) [
      | none ↦ none
      | some locale ↦ elim (lookup locale profile_by_locale) [
        | none ↦ none
        | some profile ↦ elim (at_cycle (index * 7) profile.first_names) [
          | none ↦ none
          | some first ↦ elim (at_cycle (index * 11) profile.last_names) [
            | none ↦ none
            | some last ↦ some (persona index locale profile first last)
          ]
        ]
      ]
    ]

abbrev with_suffix : String → Persona → Persona
with_suffix suffix p =
    let username : String = p.username ⧺ "." ⧺ suffix in
    record p { username = username; email = address username }

pub get_random_profile : {F : Type 0} → Numbers F → Action (World F) (Option Persona)
unfolding get_profile_for_user_number
get_random_profile N = do
  base ← draw
  time ← now
  chance ← draw
  let suffix : String = show time ⧺ show (N.floor (N.mul chance (N.of_nat 1000)))
  let number : ℕ = N.floor (N.mul base (N.of_nat 1000)) + 1
  pure (elim (get_profile_for_user_number number) [
    | none ↦ none
    | some p ↦ some (with_suffix suffix p)
  ])

pub get_questions_for_locale : String → List String
unfolding profile_by_locale
get_questions_for_locale locale = (or_else (lookup locale profile_by_locale) en_us).questions
