-- ===== src/Pages/Laws.antt =====
-- The lists of the pages: how many elements a list of rows and a count have.
use microsvc.Prelude.{
  ℕ, suc, ◌≤◌, String, Bool, Option, none, some, List, ◌∷◌, Json, Items, nil, cons, ◌≡◌, refl,
  arith, if◌then◌else◌,
}
use microsvc.Prelude.Lists.{length}
use microsvc.Pages.{◌>>=◌, mapped, size, count, has}

-- The parts of a chain that did not throw.
pub >>=-eq-some {ℓ κ} :
    {A : Type ℓ} {B : Type κ} (m : Option A) (f : A → Option B) {b : B}
    → (m >>= f) ≡ some b
    → (a : A) × (m ≡ some a) × (f a ≡ some b)
>>=-eq-some none f h = absurd (ground arith)
>>=-eq-some (some a) f h = (a, refl, h)

pub length-mapped {ℓ} :
    {A : Type ℓ} (f : Json → Option A) (items : Items) {rows : List A}
    → mapped f items ≡ some rows
    → length rows ≡ size items
unfolding mapped size
length-mapped f nil h = ground arith
length-mapped f (cons v items) h =
    let (a, first, h') = >>=-eq-some (f v) (λ a. mapped f items >>= λ rest. some (a ∷ rest)) h in
    let (rest, others, e) = >>=-eq-some (mapped f items) (λ rest. some (a ∷ rest)) h' in
    ground (arith, length-mapped f items others)

pub count-le-size :
    (key s : String) (items : Items) {n : ℕ} → count key s items ≡ some n → n ≤ size items
unfolding count size
count-le-size key s nil h = ground arith
count-le-size key s (cons v items) {n} h =
    let after = λ (b : Bool). count key s items >>= λ m. some (if b then suc m else m) in
    let (b, first, h') = >>=-eq-some (has key s v) after h in
    let (m, others, e) = >>=-eq-some (count key s items) (λ m. some (if b then suc m else m)) h' in
    ground (arith, count-le-size key s items others)
