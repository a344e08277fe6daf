-- ===== src/Simulation/Manager/Rounds.antt =====
-- What one round of starting sessions can do to the manager.
use microsvc.Prelude.{
  suc, ltb, sym, ◌∙◌, ◌≤◌, String, Bool, true, false, none, some, ◌≡◌, ◌⊎◌, arith, insert,
  Bool-cases, inl, inr,
}
use microsvc.Prelude.Lists.{length}
use microsvc.Simulation.Numbers.{Numbers, NumberLaws}
use microsvc.Simulation.Settings.{Settings}
use microsvc.Simulation.Actions.{World, wait, Outcome-cases}
use microsvc.Simulation.Users.{User}
use microsvc.Simulation.Manager.{
  Manager, generation_round, generate_user, generate_session_id, get_current_concurrency,
  registered, session_id, get_current_delay, start_user_session,
}
use microsvc.Simulation.Manager.Laws.{length-insert, peak, limit, get_current_concurrency-limit}

module _ {F : Type 0} (N : Numbers F) (settings : Settings F) (s : Manager F) where
  abbrev is_full : Bool
  is_full = N.at_most (get_current_concurrency N settings s) (N.of_nat (length s.active_sessions))

  -- A round that starts no session changes nothing but the world.
  pub record IsIdle : Type 0 where
    pub world : World F
    pub result : generation_round N settings s ≡ (none, record s { world = world })

  -- A round that starts a session enters it, and only where there was room for it.
  pub record IsBegun : Type 0 where
    pub world : World F
    pub id : String
    pub user : User
    pub room : is_full ≡ false
    pub result :
        generation_round N settings s
        ≡ (some (id, user), record (registered id user s) { world = world })

  pub generation_round-cases : IsIdle ⊎ IsBegun
  unfolding generation_round start_user_session generate_session_id registered
  generation_round-cases = elim (Bool-cases is_full) [
    | inl full ↦ inl (record { world = wait (N.of_nat 1000) s.world; result = ground arith })
    | inr room ↦ elim (Outcome-cases (generate_user N settings s.world).0) [
      | inr (e, failed) ↦ inl (record {
        world = wait (N.of_nat 5000) (generate_user N settings s.world).1;
        result = ground arith;
      })
      | inl (user, made) ↦
          let w = (generate_user N settings s.world).1 in
          let id = session_id N (w.clock w.read) (w.random w.drawn) in
          let w' : World F = record w { read = suc w.read; drawn = suc w.drawn } in
          let delay = get_current_delay N settings (registered id user (record s { world = w' })) in
          inr (record {
            world = wait delay w';
            id = id;
            user = user;
            room = room;
            result = ground arith;
          })
    ]
  ]

true_ne_false : true ≡ false → ⊥
true_ne_false e = cc

module _ {F : Type 0} {N : Numbers F} (laws : NumberLaws N) (settings : Settings F) where
  -- A round keeps to the limit.
  pub room-limit :
      (s : Manager F) (id : String) (u : User)
      → N.at_most s.concurrency_level (N.of_nat (peak settings)) ≡ true
      → is_full N settings s ≡ false
      → length (insert id u s.active_sessions) ≤ limit settings
  room-limit s id u low room = elim (Bool-cases (ltb (length s.active_sessions) (limit settings))) [
    | inl below ↦ ground (arith, length-insert id u s.active_sessions)
    | inr reached ↦ absurd (
        true_ne_false (
          sym (
            laws.at_most_trans _ _ _ (get_current_concurrency-limit laws settings s low)
              (laws.of_nat_mono _ _ (ground arith)))
          ∙ room))
  ]
