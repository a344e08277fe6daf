-- ===== src/Simulation/Numbers.antt =====
-- The numbers of simulation-client/src. Its settings and draws are floating-point numbers, whose
-- operations are the language's: they are a parameter, with what the code relies on as laws.
use microsvc.Prelude.{ℕ, ◌≤◌, Bool, true, ◌≡◌, Number}

pub record Numbers (F : Type 0) : Type 0 where
  pub of_nat : ℕ → F
  -- the value of a numeral in decimal: its digits, and how many of them stand behind the point
  pub decimal : ℕ → ℕ → F
  pub add : F → F → F
  pub sub : F → F → F
  pub mul : F → F → F
  pub div : F → F → F
  -- `Math.min`, `Math.max`, `Math.round`
  pub min : F → F → F
  pub max : F → F → F
  pub round : F → F
  -- `Math.floor` of what is not negative
  pub floor : F → ℕ
  -- `a < b` and `a <= b`
  pub below : F → F → Bool
  pub at_most : F → F → Bool
  -- how a number is written as JSON, and `Number(v)` of a JSON number
  pub to_json : F → Number
  pub of_json : Number → F
  -- `Math.sqrt(-2 * Math.log(a)) * Math.cos(2 * Math.PI * b)`
  pub gauss : F → F → F

-- What the language documents of comparing, rounding and bounding numbers other than `NaN`.
pub record NumberLaws {F : Type 0} (N : Numbers F) : Type 0 where
  pub at_most_refl : (a : F) → N.at_most a a ≡ true
  pub at_most_trans :
      (a b c : F) → N.at_most a b ≡ true → N.at_most b c ≡ true → N.at_most a c ≡ true
  pub min_left : (a b : F) → N.at_most (N.min a b) a ≡ true
  pub min_greatest :
      (a b c : F) → N.at_most c a ≡ true → N.at_most c b ≡ true → N.at_most c (N.min a b) ≡ true
  pub max_left : (a b : F) → N.at_most a (N.max a b) ≡ true
  pub max_least :
      (a b c : F) → N.at_most a c ≡ true → N.at_most b c ≡ true → N.at_most (N.max a b) c ≡ true
  pub round_mono : (a b : F) → N.at_most a b ≡ true → N.at_most (N.round a) (N.round b) ≡ true
  pub round-of_nat : (n : ℕ) → N.round (N.of_nat n) ≡ N.of_nat n
  pub of_nat_mono : (m n : ℕ) → m ≤ n → N.at_most (N.of_nat m) (N.of_nat n) ≡ true
