-- ===== src/Simulation/Actions.antt =====
-- What simulation-client/src does outside itself: requests by the HTTP library, waits, draws of
-- `Math.random` and readings of the clock. An action takes a state and returns a value or an
-- exception, with the state after it.
use microsvc.Prelude.{ℕ, suc, String, Option, List, ◌∷◌, Json, ◌⊎◌, inl, inr, ◌≡◌, refl}
use microsvc.Prelude.Lists.{length}
use microsvc.Web.{Axios, Error, Reply, replied, failed}

-- A call of an instance of the HTTP library. `params` are the search parameters, and `headers` the
-- headers given with the call.
pub record Request : Type 0 where
  pub through : Axios
  pub method : String
  pub url : String
  pub params : List (String × String)
  pub headers : List (String × String)
  pub body : Option Json

-- `network` is the reply to the n-th request, `random` the n-th draw, `clock` the n-th reading of
-- the clock; `sent` and `waits`, in milliseconds, have the latest first. `F` is the type of numbers.
pub record World (F : Type 0) : Type 0 where
  pub network : ℕ → Request → Reply
  pub random : ℕ → F
  pub clock : ℕ → ℕ
  -- `new Date().getMinutes()` of a reading
  pub minutes : ℕ → ℕ
  pub drawn : ℕ
  pub read : ℕ
  pub sent : List Request
  pub waits : List F

pub data Outcome (A : Type 0) : Type 0 where
  returned : A → Outcome A
  thrown : Error → Outcome A

pub Outcome-cases :
    {A : Type 0} (o : Outcome A) → ((a : A) × (o ≡ returned a)) ⊎ ((e : Error) × (o ≡ thrown e))
Outcome-cases (returned a) = inl (a, refl)
Outcome-cases (thrown e) = inr (e, refl)

abbrev pub Action : Type 0 → Type 0 → Type 0
Action S A = S → Outcome A × S

module _ {S : Type 0} where
  abbrev pub pure : {A : Type 0} → A → Action S A
  pure a s = (returned a, s)

  abbrev pub throw : {A : Type 0} → Error → Action S A
  throw e s = (thrown e, s)

  infixl 5 ◌>>=◌ ◌>>◌
  abbrev pub ◌>>=◌ : {A B : Type 0} → Action S A → (A → Action S B) → Action S B
  ◌>>=◌ m f s = let (o, s') = m s in elim o [ thrown e ↦ (thrown e, s') | returned a ↦ f a s' ]

  abbrev pub ◌>>◌ : {A B : Type 0} → Action S A → Action S B → Action S B
  ◌>>◌ m k s = let (o, s') = m s in elim o [ thrown e ↦ (thrown e, s') | returned a ↦ k s' ]

  -- `try { … } catch (error) { … }`
  abbrev pub catch : {A : Type 0} → (Error → Action S A) → Action S A → Action S A
  catch handler m s =
      let (o, s') = m s in elim o [ thrown e ↦ handler e s' | returned a ↦ (returned a, s') ]

-- The data of a reply.
abbrev pub answer : Reply → Outcome Json
answer (replied r) = returned r.body
answer (failed e) = thrown e

module _ {F : Type 0} where
  -- A timer that has run out.
  abbrev pub wait : F → World F → World F
  wait ms w = record w { waits = ms ∷ w.waits }

  -- `Math.random()`
  abbrev pub draw : Action (World F) F
  draw w = (returned (w.random w.drawn), record w { drawn = suc w.drawn })

  -- `Date.now()`
  abbrev pub now : Action (World F) ℕ
  now w = (returned (w.clock w.read), record w { read = suc w.read })

  -- `new Date().getMinutes()`
  abbrev pub minute : Action (World F) ℕ
  minute w = (returned (w.minutes w.read), record w { read = suc w.read })

  -- One request, and the data of its reply.
  abbrev pub request : Request → Action (World F) Json
  request r w = (answer (w.network (length w.sent) r), record w { sent = r ∷ w.sent })
