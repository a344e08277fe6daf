-- ===== src/Prelude/Texts.antt =====
-- Texts: the templates of the source join them by `◌⧺◌`, and print numbers in decimal.
use Prim.Native.Nat.{ℕ, zero, suc, ◌/◌, ◌%◌}
use Prim.Native.Char.{code}
use Prim.Native.String
use Prim.Native.String.{String}
use mathlib.Core.Path.{◌≡◌, refl}
use mathlib.Core.Logic.{◌≢◌}
use mathlib.Core.Bool.{Bool, true, false}
use mathlib.Core.Option.{Option, none, some}
use mathlib.Core.List.{List, [], ◌∷◌, ◌++◌}
use native.Mathlib.Omega.{arith}
use text.Mathlib.Text.{◌==◌}
use text.Mathlib.TextEquality.{eq_iff}
use microsvc.Prelude.Tests.{if◌then◌else◌, ltb, or_else}

infixr 65 ◌⧺◌
abbrev pub ◌⧺◌ : String → String → String
s ⧺ t = String.◌++◌ s t

abbrev pub str_eq : String → String → Bool
str_eq s t = s == t

-- The code points of a text.
abbrev pub codes : String → List ℕ
codes String.[] = []
codes (String.◌∷◌ c s) = code c ∷ codes s

abbrev show_digit : ℕ → String
show_digit zero = "0"
show_digit (suc zero) = "1"
show_digit (suc (suc zero)) = "2"
show_digit (suc (suc (suc zero))) = "3"
show_digit (suc (suc (suc (suc zero)))) = "4"
show_digit (suc (suc (suc (suc (suc zero))))) = "5"
show_digit (suc (suc (suc (suc (suc (suc zero)))))) = "6"
show_digit (suc (suc (suc (suc (suc (suc (suc zero))))))) = "7"
show_digit (suc (suc (suc (suc (suc (suc (suc (suc zero)))))))) = "8"
show_digit (suc (suc (suc (suc (suc (suc (suc (suc (suc n))))))))) = "9"

show_from : ℕ → ℕ → String
show_from zero n = ""
show_from (suc fuel) n =
    let rest = show_from fuel (n / 10) in
    if ltb n 10 then show_digit n else rest ⧺ show_digit (n % 10)

-- `id.toString()` of a non-negative integer. Each round divides by ten, so `n + 1` rounds suffice.
unfoldable pub show : ℕ → String
unfolding show_from
show n = show_from (suc n) n

-- The first value of a key, as a property read on an object does.
unfoldable pub lookup {ℓ} : {V : Type ℓ} → String → List (String × V) → Option V
lookup key [] = none
lookup key ((k, v) ∷ rest) = if k == key then some v else lookup key rest

-- An assignment to a property: in place, or at the end.
unfoldable pub insert {ℓ} : {V : Type ℓ} → String → V → List (String × V) → List (String × V)
insert key v [] = (key, v) ∷ []
insert key v ((k, w) ∷ rest) = if k == key then (key, v) ∷ rest else (k, w) ∷ insert key v rest

-- The truthiness of a text, and `s || null`.
abbrev pub is_nonempty : String → Bool
is_nonempty String.[] = false
is_nonempty (String.◌∷◌ c s) = true

abbrev pub nonempty : Option String → Option String
nonempty none = none
nonempty (some String.[]) = none
nonempty (some (String.◌∷◌ c s)) = some (String.◌∷◌ c s)

-- `delete object[key]`
unfoldable pub erase {ℓ} : {V : Type ℓ} → String → List (String × V) → List (String × V)
erase key [] = []
erase key ((k, v) ∷ rest) = if k == key then rest else (k, v) ∷ erase key rest

pub is_nonempty-or_else :
    (s d : String) → is_nonempty d ≡ true → is_nonempty (or_else (nonempty (some s)) d) ≡ true
is_nonempty-or_else String.[] d h = h
is_nonempty-or_else (String.◌∷◌ c s) d h = refl

pub nonempty-some : (s : String) → s ≢ "" → nonempty (some s) ≡ some s
nonempty-some String.[] h = absurd (h refl)
nonempty-some (String.◌∷◌ c s) h = refl

-- What is read of a key after a write of one.
pub lookup-insert {ℓ} :
    {V : Type ℓ} (key k : String) (v : V) (m : List (String × V))
    → lookup k (insert key v m) ≡ (if key == k then some v else lookup k m)
unfolding lookup insert
lookup-insert key k v [] = refl
lookup-insert key k v ((j, w) ∷ m) =
    ground (arith, eq_iff key k, eq_iff j key, eq_iff j k, lookup-insert key k v m)

-- An entry at the end is read only where no entry before it has its key.
pub lookup-append {ℓ} :
    {V : Type ℓ} (k key : String) (v : V) (m : List (String × V))
    → lookup k (m ++ (key, v) ∷ [])
      ≡ (elim (lookup k m) [ some u ↦ some u | none ↦ if key == k then some v else none ])
unfolding lookup
lookup-append k key v [] = refl
lookup-append k key v ((j, w) ∷ m) = ground (arith, lookup-append k key v m)
