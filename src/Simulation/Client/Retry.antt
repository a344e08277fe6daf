-- ===== src/Simulation/Client/Retry.antt =====
-- What trying again comes to: which attempt counts, what has been sent by then, and how long the
-- waits were.
use microsvc.Prelude.{
  ℕ, zero, suc, ◌+◌, ◌*◌, ◌≤◌, Bool, true, false, ◌&&◌, ◌≡◌, ◌⊎◌, inl, inr, refl, arith, Bool-cases,
}
use microsvc.Simulation.Numbers.{Numbers}
use microsvc.Simulation.Actions.{World, Action, Outcome, returned, thrown, wait}
use microsvc.Simulation.Client.{ApiClient, is_retryable_error, retry_from, retry_request}

-- An attempt that is followed by another one, if there are any left.
abbrev pub is_retried : {A : Type 0} → Outcome A → Bool
is_retried (returned a) = false
is_retried (thrown e) = is_retryable_error e

module _ {F : Type 0} (N : Numbers F) (c : ApiClient) where
  -- The state in which the k-th attempt starts, and whether all attempts before it failed in a way
  -- that is tried again.
  module _ {A : Type 0} (fn : Action (World F) A) where
    abbrev backed_off : ℕ → World F → World F
    backed_off retries w = wait (N.of_nat (c.retry_delay * (retries + 1))) (fn w).1

    abbrev pub attempt_state : (retries : ℕ) → World F → ℕ → World F
    attempt_state retries w zero = w
    attempt_state retries w (suc k) = attempt_state (retries + 1) (backed_off retries w) k

    abbrev pub retried_before : (retries : ℕ) → World F → ℕ → Bool
    retried_before retries w zero = true
    retried_before retries w (suc k) =
        is_retried (fn w).0 && retried_before (retries + 1) (backed_off retries w) k

    -- What is known of the attempt whose outcome is handed over.
    pub record IsLast (left retries : ℕ) (w : World F) (result : Outcome A × World F) : Type 0 where
      pub index : ℕ
      pub in_time : index ≤ left
      pub before : retried_before retries w index ≡ true
      pub last : result ≡ fn (attempt_state retries w index)
      pub why : (is_retried (fn (attempt_state retries w index)).0 ≡ false) ⊎ (index ≡ left)

    retry_from-IsLast :
        (left retries : ℕ) (w : World F) → IsLast left retries w (retry_from N c left retries fn w)
    unfolding retry_from
    retry_from-IsLast zero retries w = record {
      index = 0;
      in_time = omega arith;
      before = refl;
      last = refl;
      why = inr refl;
    }
    retry_from-IsLast (suc left) retries w = elim (Bool-cases (is_retried (fn w).0)) [
      | inl again ↦
          let next = retry_from-IsLast left (retries + 1) (backed_off retries w) in
          record {
            index = suc next.index;
            in_time = omega (arith, next.in_time);
            before = ground (arith, next.before);
            last = ground (arith, next.last);
            why = ground (arith, next.why);
          }
      | inr settled ↦ record {
        index = 0;
        in_time = omega arith;
        before = refl;
        last = ground arith;
        why = inl settled;
      }
    ]

    -- A request that may be tried again hands over the outcome of one of its attempts: the first
    -- that succeeds or fails in a way that is not tried again, and otherwise the last one that the
    -- settings allow; every attempt before it failed in a way that is tried again.
    pub retry_request-IsLast : (w : World F) → IsLast c.max_retries 0 w (retry_request N c fn w)
    unfolding retry_request
    retry_request-IsLast w = retry_from-IsLast c.max_retries 0 w
