-- ===== src/Validation/Measures.antt =====
-- What the strength of a password and the range of two dates say.
use microsvc.Prelude.{
  ℕ, ◌≤◌, String, true, false, ◌||◌, Option, List, [], ◌∷◌, Number, dec, ◌≡◌, arith, Option-cases,
  inl, inr,
}
use microsvc.Prelude.Lists.{length}
use microsvc.Forms.{below}
use microsvc.Validation.{
  utf16, any, is_lower, is_upper, is_digit, is_special, get_password_strength, is_valid_date,
  is_valid_date_range,
}

some_class :
    (us : List ℕ)
    → 1 ≤ length us
    → (any is_lower us || (any is_upper us || (any is_digit us || any is_special us))) ≡ true
some_class [] h = absurd (omega arith)
some_class (c ∷ us) h = ground arith

-- A password of eight units or more has a strength of two at least: its length, and one of the four
-- kinds of units.
pub get_password_strength-long :
    (password : String) → 8 ≤ length (utf16 password) → 2 ≤ (get_password_strength password).score
unfolding get_password_strength
get_password_strength-long password h = ground (arith, some_class (utf16 password))

below_asym : (a b : Number) → below a b ≡ true → below b a ≡ false
below_asym (dec true d p) (dec true d' p') h = ground arith
below_asym (dec true d p) (dec false d' p') h = ground arith
below_asym (dec false d p) (dec true d' p') h = absurd (ground arith)
below_asym (dec false d p) (dec false d' p') h = ground arith

-- A range of dates is valid only between valid dates, and of two valid dates one begins a range that
-- the other ends.
pub is_valid_date_range_lem :
    (time : String → Option Number) (from to : String)
    → (is_valid_date_range time from to ≡ true
        → (is_valid_date time from ≡ true) × (is_valid_date time to ≡ true))
      × (is_valid_date time from ≡ true
          → is_valid_date time to ≡ true
          → (is_valid_date_range time from to || is_valid_date_range time to from) ≡ true)
unfolding is_valid_date_range is_valid_date
is_valid_date_range_lem time from to = elim (Option-cases (time from)) [
  | inl bad ↦ (λ h. absurd (ground arith), λ f t. absurd (ground arith))
  | inr (a, is_a) ↦ elim (Option-cases (time to)) [
    | inl bad ↦ (λ h. absurd (ground arith), λ f t. absurd (ground arith))
    | inr (b, is_b) ↦ (λ h. (ground arith, ground arith), λ f t. ground (arith, below_asym b a))
  ]
]
