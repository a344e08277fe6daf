-- ===== src/Simulation/Personas/Laws.antt =====
-- Every user number has a persona.
use microsvc.Prelude.{
  ℕ, zero, suc, ◌-◌, ◌*◌, ◌<◌, ◌%◌, String, none, some, List, [], ◌∷◌, ◌≡◌, refl, arith, lookup,
  Bool, true, false, ◌&&◌, ltb, Option-cases, inl, inr, if◌then◌else◌, leb,
}
use native.Mathlib.Nat.{mod-lt}
use microsvc.Prelude.Lists.{length, get_elem?, All}
use microsvc.Simulation.Personas.{
  persona, at_cycle, Profile, Persona, locale_cycle, profile_by_locale, get_profile_for_user_number,
}

get_elem?-All {ℓ κ} :
    {A : Type ℓ} (P : A → Type κ) (xs : List A) (i : ℕ)
    → i < length xs
    → All P xs
    → (x : A) × (get_elem? xs i ≡ some x) × P x
get_elem?-All P [] i h a = absurd (omega arith)
get_elem?-All P (x ∷ xs) zero h a = (x, refl, a.0)
get_elem?-All P (x ∷ xs) (suc i) h a = get_elem?-All P xs i (omega arith) a.1

-- A locale with a profile that has names of both kinds.
record IsNamed (locale : String) : Type 0 where
  profile : Profile
  listed : lookup locale profile_by_locale ≡ some profile
  first : 0 < length profile.first_names
  last : 0 < length profile.last_names

All-Unit {ℓ} : {A : Type ℓ} (xs : List A) → All (λ (x : A). Unit {0}) xs
All-Unit [] = tt
All-Unit (x ∷ xs) = (tt, All-Unit xs)

is_named : String → Bool
is_named locale = elim (lookup locale profile_by_locale) [
  | none ↦ false
  | some p ↦ ltb 0 (length p.first_names) && ltb 0 (length p.last_names)
]

is_named-IsNamed : (locale : String) → is_named locale ≡ true → IsNamed locale
unfolding is_named
is_named-IsNamed locale h = elim (Option-cases (lookup locale profile_by_locale)) [
  | inl e ↦ absurd (ground arith)
  | inr (p, e) ↦ record { profile = p; listed = e; first = ground arith; last = ground arith }
]

all_named : List String → Bool
unfolding is_named
all_named [] = true
all_named (x ∷ xs) = is_named x && all_named xs

all_named-All : (xs : List String) → all_named xs ≡ true → All IsNamed xs
unfolding all_named
all_named-All [] h = tt
all_named-All (x ∷ xs) h = (is_named-IsNamed x (ground arith), all_named-All xs (ground arith))

locale_cycle-IsNamed : All IsNamed locale_cycle
unfolding all_named profile_by_locale lookup
locale_cycle-IsNamed = all_named-All locale_cycle refl

cycled :
    {A : Type 0} (P : A → Type 0) (xs : List A) (i : ℕ)
    → 0 < length xs
    → All P xs
    → (x : A) × (get_elem? xs (i % length xs) ≡ some x) × P x
cycled P xs i h a = get_elem?-All P xs (i % length xs) (mod-lt i h) a

-- The number that a user number counts as.
abbrev index : ℕ → ℕ
index n = if leb 1 n then n else 1

get_profile_for_user_number_found :
    (n : ℕ) {locale first last : String} {profile : Profile}
    → at_cycle (index n - 1) locale_cycle ≡ some locale
    → lookup locale profile_by_locale ≡ some profile
    → at_cycle (index n * 7) profile.first_names ≡ some first
    → at_cycle (index n * 11) profile.last_names ≡ some last
    → get_profile_for_user_number n ≡ some (persona (index n) locale profile first last)
unfolding get_profile_for_user_number
get_profile_for_user_number_found n e p f l = ground arith

-- Every user number, however large, has a persona: its locale is in the cycle and has a profile.
pub get_profile_for_user_number_total :
    (n : ℕ) → (p : Persona) × (get_profile_for_user_number n ≡ some p)
get_profile_for_user_number_total n =
    let (locale, e, has) =
      cycled IsNamed locale_cycle (index n - 1) (omega arith) locale_cycle-IsNamed in
    let (first, f, _) =
      cycled (λ (x : String). Unit {0}) has.profile.first_names (index n * 7) has.first
        (All-Unit _) in
    let (last, l, _) =
      cycled (λ (x : String). Unit {0}) has.profile.last_names (index n * 11) has.last
        (All-Unit _) in
    (
      persona (index n) locale has.profile first last,
      get_profile_for_user_number_found n e has.listed f l,
    )
