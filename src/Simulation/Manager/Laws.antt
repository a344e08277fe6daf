-- ===== src/Simulation/Manager/Laws.antt =====
-- What the operations of the manager do to its map of sessions and to its level.
use microsvc.Prelude.{
  ℕ, zero, suc, ◌+◌, ◌≤◌, ◌<◌, String, true, false, none, some, List, [], ◌∷◌, ◌≡◌, arith, lookup,
  insert, str_eq, if◌then◌else◌, eq_iff, leb, ◌⊎◌, Option-cases, Bool-cases, inl, inr,
}
use microsvc.Prelude.Lists.{length}
use microsvc.Simulation.Numbers.{Numbers, NumberLaws}
use microsvc.Simulation.Settings.{Settings}
use microsvc.Simulation.Actions.{World}
use microsvc.Simulation.Manager.{
  Manager, delete, is_zero, nonzero_draw, gaussian, drifted, traffic_step, get_current_concurrency,
  clamped,
}

module _ {ℓ} {V : Type ℓ} where
  pub length-insert :
      (key : String) (v : V) (m : List (String × V)) → length (insert key v m) ≤ length m + 1
  unfolding insert
  length-insert key v [] = omega arith
  length-insert key v ((k, w) ∷ m) = ground (arith, length-insert key v m)

  pub length-delete : (key : String) (m : List (String × V)) → length (delete key m) ≤ length m
  unfolding delete
  length-delete key [] = omega arith
  length-delete key ((k, w) ∷ m) = ground (arith, length-delete key m)

  pub lookup-delete :
      (key k : String) (m : List (String × V))
      → lookup k (delete key m) ≡ (if str_eq key k then none else lookup k m)
  unfolding delete lookup
  lookup-delete key k [] = ground arith
  lookup-delete key k ((j, w) ∷ m) =
      ground (arith, eq_iff key k, eq_iff j key, eq_iff j k, lookup-delete key k m)

-- The larger of two numbers.
abbrev pub larger : ℕ → ℕ → ℕ
larger a b = if leb a b then b else a

module _ {F : Type 0} (settings : Settings F) where
  -- The largest level there can be, and the largest number of sessions at a time.
  abbrev pub peak : ℕ
  peak =
      larger settings.simulation.burst.mean_concurrent_users
        settings.simulation.burst.burst_concurrent_users

  abbrev pub limit : ℕ
  limit =
      if settings.simulation.burst.enabled
      then larger 1 peak
      else settings.simulation.concurrent_users

module _ {F : Type 0} {N : Numbers F} (laws : NumberLaws N) (settings : Settings F) where
  pub clamped-peak :
      (level : F) → N.at_most (clamped N settings level) (N.of_nat (peak settings)) ≡ true
  clamped-peak level =
      laws.at_most_trans _ (N.of_nat settings.simulation.burst.burst_concurrent_users) _
        (laws.min_left _ _) (laws.of_nat_mono _ _ (ground arith))

  pub clamped_bounds :
      (level : F)
      → settings.simulation.burst.base_concurrent_users
        ≤ settings.simulation.burst.burst_concurrent_users
      → let u = settings.simulation.burst in
        (N.at_most (N.of_nat u.base_concurrent_users) (clamped N settings level) ≡ true)
        × (N.at_most (clamped N settings level) (N.of_nat u.burst_concurrent_users) ≡ true)
  clamped_bounds level h =
      (laws.min_greatest _ _ _ (laws.of_nat_mono _ _ h) (laws.max_left _ _), laws.min_left _ _)

  pub get_current_concurrency-limit :
      (s : Manager F)
      → N.at_most s.concurrency_level (N.of_nat (peak settings)) ≡ true
      → N.at_most (get_current_concurrency N settings s) (N.of_nat (limit settings)) ≡ true
  unfolding get_current_concurrency
  get_current_concurrency-limit s h = elim (Bool-cases settings.simulation.burst.enabled) [
    | inl on ↦ rw on (
        laws.max_least _ _ _ (laws.of_nat_mono _ _ (ground arith)) (
          laws.at_most_trans _ (N.of_nat (peak settings)) _
            (rw (← (laws.round-of_nat (peak settings))) (laws.round_mono _ _ h))
            (laws.of_nat_mono _ _ (ground arith))))
    | inr off ↦ rw off (laws.at_most_refl _)
  ]

-- Among any so many draws in a row there is one that is not zero.
abbrev pub IsVaried : {F : Type 0} → Numbers F → ℕ → (ℕ → F) → Type 0
IsVaried N bound random = (k : ℕ) → (i : ℕ) × (i < bound) × (is_zero N (random (k + i)) ≡ false)

module _ {F : Type 0} (N : Numbers F) where
  -- The draw that is not zero is not the first.
  later :
      (fuel : ℕ) (w : World F) (i : ℕ)
      → i < suc fuel
      → is_zero N (w.random (w.drawn + i)) ≡ false
      → is_zero N (w.random w.drawn) ≡ true
      → (j : ℕ) × ((j < fuel) × (is_zero N (w.random (suc w.drawn + j)) ≡ false))
  later fuel w zero h e more = absurd (ground arith)
  later fuel w (suc i) h e more = (i, (omega arith, ground arith))

  nonzero_draw_total :
      (fuel : ℕ) (w : World F) (i : ℕ)
      → i < fuel
      → is_zero N (w.random (w.drawn + i)) ≡ false
      → (a : F) × (d : ℕ) × (nonzero_draw N fuel w ≡ some (a, record w { drawn = d }))
  unfolding nonzero_draw
  nonzero_draw_total zero w i h e = absurd (omega arith)
  nonzero_draw_total (suc fuel) w i h e = elim (Bool-cases (is_zero N (w.random w.drawn))) [
    | inr done ↦ (w.random w.drawn, suc w.drawn, ground arith)
    | inl more ↦
        let (j, e') = later fuel w i h e more in
        let (a, d, found) =
          nonzero_draw_total fuel (record w { drawn = suc w.drawn }) j e'.0 e'.1 in
        (a, d, ground arith)
  ]

  gaussian_total :
      (bound : ℕ) (w : World F)
      → IsVaried N bound w.random
      → (g : F) × (d : ℕ) × (gaussian N bound w ≡ some (g, record w { drawn = d }))
  unfolding gaussian
  gaussian_total bound w h =
      let (i, small, e) = h w.drawn in
      let (a, d, first) = nonzero_draw_total bound w i small e in
      let (j, small', e') = h d in
      let (b, d', second) = nonzero_draw_total bound (record w { drawn = d }) j small' e' in
      (N.gauss a b, d', ground arith)

module _ {F : Type 0} {N : Numbers F} (laws : NumberLaws N) (settings : Settings F) where
  drifted_bounds :
      (g : F) (w : World F) (s : Manager F)
      → settings.simulation.burst.base_concurrent_users
        ≤ settings.simulation.burst.burst_concurrent_users
      → let u = settings.simulation.burst in
        let level = (drifted N settings g w s).concurrency_level in
        (N.at_most (N.of_nat u.base_concurrent_users) level ≡ true)
        × (N.at_most level (N.of_nat u.burst_concurrent_users) ≡ true)
  unfolding drifted
  drifted_bounds g w s ordered = clamped_bounds laws settings _ ordered

  pub drifted-peak :
      (g : F) (w : World F) (s : Manager F)
      → N.at_most (drifted N settings g w s).concurrency_level (N.of_nat (peak settings)) ≡ true
  unfolding drifted
  drifted-peak g w s = clamped-peak laws settings _

-- While the simulation runs, each step of the traffic model comes to an end, provided that the
-- draws do not stay zero, and leaves a level between the base and the peak of the settings, provided
-- that the base is at most the peak, which the configuration does not check.
pub traffic_step_bounds :
    {F : Type 0} {N : Numbers F}
    → NumberLaws N
    → (settings : Settings F) (bound : ℕ) (s : Manager F)
    → settings.simulation.burst.base_concurrent_users
      ≤ settings.simulation.burst.burst_concurrent_users
    → IsVaried N bound s.world.random
    → s.is_running ≡ true
    → let u = settings.simulation.burst in
      (t : Manager F) × (traffic_step N settings bound s ≡ some t)
      × (N.at_most (N.of_nat u.base_concurrent_users) t.concurrency_level ≡ true)
      × (N.at_most t.concurrency_level (N.of_nat u.burst_concurrent_users) ≡ true)
unfolding traffic_step
traffic_step_bounds {F} {N} laws settings bound s ordered varied running =
    let (g, d, drawn) = gaussian_total N bound s.world varied in
    let w : World F = record s.world { drawn = d } in
    let bounds = drifted_bounds laws settings g w s ordered in
    (drifted N settings g w s, ground (arith, drawn), bounds.0, bounds.1)

-- A step of the traffic model moves the level, or does nothing.
pub traffic_step-cases :
    {F : Type 0} (N : Numbers F) (settings : Settings F) (fuel : ℕ) (s m : Manager F)
    → traffic_step N settings fuel s ≡ some m
    → (m ≡ s) ⊎ ((g : F) × (w : World F) × (m ≡ drifted N settings g w s))
unfolding traffic_step
traffic_step-cases N settings fuel s m e = elim (Bool-cases s.is_running) [
  | inr stopped ↦ inl (ground arith)
  | inl running ↦ elim (Option-cases (gaussian N fuel s.world)) [
    | inl short ↦ absurd (ground arith)
    | inr ((g, w), drawn) ↦ inr (g, w, ground arith)
  ]
]
