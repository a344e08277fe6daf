-- ===== src/Simulation/Manager/Waiting.antt =====
-- simulation-client/src/workflows/SimulationManager.js: `waitForActiveSessions`.
use microsvc.Prelude.{
  ◌⊎◌, ℕ, zero, suc, ◌+◌, ◌-◌, ◌*◌, ◌≤◌, ◌<◌, ltb, ◌==◌, Bool, true, false, ◌&&◌, Option, none,
  some, ◌≡◌, arith, Bool-cases, inl, inr, if◌then◌else◌,
}

-- What is seen at the n-th test of the loop: the number of active sessions and the time.
pub record Seen : Type 0 where
  pub active : ℕ → ℕ
  pub clock : ℕ → ℕ

-- `while (activeSessions.size > 0 && Date.now() - startTime < timeoutMs)`, from the n-th test on.
-- The result is the last test, with whether all sessions have ended; `none` where the fuel runs
-- out.
pub wait_from : ℕ → Seen → (start timeout n : ℕ) → Option (ℕ × Bool)
wait_from zero seen start timeout n = none
wait_from (suc fuel) seen start timeout n =
    let rest = wait_from fuel seen start timeout (suc n) in
    if ltb 0 (seen.active n) && ltb (seen.clock n - start) timeout
    then rest
    else some (n, seen.active n == 0)

pub wait_for_active_sessions : ℕ → Seen → (start timeout : ℕ) → Option (ℕ × Bool)
unfolding wait_from
wait_for_active_sessions fuel seen start timeout = wait_from fuel seen start timeout 0

-- A timer of a second takes at least a second.
abbrev pub IsPaced : Seen → Type 0
IsPaced seen = (n : ℕ) → seen.clock n + 1000 ≤ seen.clock (suc n)

-- What the end of the wait means.
pub record HasWaited (seen : Seen) (start timeout fuel : ℕ) : Type 0 where
  pub last : ℕ
  pub in_time : last < fuel
  pub done : Bool
  pub ends : wait_for_active_sessions fuel seen start timeout ≡ some (last, done)
  pub why :
      ((done ≡ true) × (seen.active last ≡ 0))
      ⊎ ((done ≡ false) × (0 < seen.active last) × (timeout ≤ seen.clock last - start))

-- What a test that ends the loop has seen.
stopped :
    (seen : Seen) (start timeout n : ℕ)
    → (ltb 0 (seen.active n) && ltb (seen.clock n - start) timeout) ≡ false
    → (((seen.active n == 0) ≡ true) × (seen.active n ≡ 0))
      ⊎ (((seen.active n == 0) ≡ false) × (0 < seen.active n) × (timeout ≤ seen.clock n - start))
stopped seen start timeout n h = elim (Bool-cases (seen.active n == 0)) [
  | inl over ↦ inl (over, ground arith)
  | inr left ↦ inr (left, ground arith, ground arith)
]

-- One more round of fuel than the seconds that are left is enough.
wait_from_ends :
    (seen : Seen)
    → IsPaced seen
    → (start timeout fuel n : ℕ) → start ≤ seen.clock n
    → timeout ≤ seen.clock n - start + 1000 * fuel
    → (last : ℕ) × (done : Bool) × (last ≤ n + fuel)
      × (wait_from (suc fuel) seen start timeout n ≡ some (last, done))
      × (((done ≡ true) × (seen.active last ≡ 0))
          ⊎ ((done ≡ false) × (0 < seen.active last) × (timeout ≤ seen.clock last - start)))
unfolding wait_from
wait_from_ends seen paced start timeout zero n h enough =
    (n, seen.active n == 0, omega arith, ground arith, stopped seen start timeout n (ground arith))
wait_from_ends seen paced start timeout (suc fuel) n h enough =
    elim (Bool-cases (ltb 0 (seen.active n) && ltb (seen.clock n - start) timeout)) [
      | inr stops ↦
          (n, seen.active n == 0, omega arith, ground arith, stopped seen start timeout n stops)
      | inl waits ↦
          let (last, done, early, result, why) =
            wait_from_ends seen paced start timeout fuel (suc n) (omega (arith, paced n))
              (omega (arith, paced n)) in
          (last, done, omega (arith, early), ground (arith, result), why)
    ]

-- The wait for the active sessions when the program stops comes to an end after at most 31 tests:
-- either no session is active any more, or half a minute has passed and some still are.
pub wait_for_active_sessions_ends :
    (seen : Seen) (start : ℕ) → IsPaced seen → start ≤ seen.clock 0 → HasWaited seen start 30000 31
unfolding wait_for_active_sessions
wait_for_active_sessions_ends seen start paced h =
    let (last, done, early, result, why) =
      wait_from_ends seen paced start 30000 30 0 h (omega arith) in
    record { last = last; in_time = omega (arith, early); done = done; ends = result; why = why }
