-- ===== src/Simulation/Users.antt =====
-- simulation-client/src/models/User.js: the class `User`, and the simulation's state as one of its
-- sessions sees it. What is written to the log is left out, with the readings of the clock for it.
use microsvc.Prelude.{
  ℕ, ◌-◌, String, Bool, true, false, Option, none, some, Json, null, arr, nil, truthy?,
}
use microsvc.Simulation.Numbers.{Numbers}
use microsvc.Simulation.Settings.{Settings}
use microsvc.Simulation.Actions.{World, Action, returned, thrown, now, ◌>>=◌}
use microsvc.Simulation.Client.{type_error}
use microsvc.Simulation.Personas.{Persona, get_profile_for_user_number, get_random_profile}

-- `none` is `undefined`, where a value may be that.
pub record User : Type 0 where
  pub id : Option Json
  pub username : String
  pub email : String
  pub first_name : String
  pub last_name : String
  pub display_name : String
  pub locale : String
  pub language : String
  pub password : String
  pub token : Option Json
  pub accounts : Json
  pub is_pre_existing : Bool
  pub session_start_time : Option ℕ
  pub last_action_time : Option ℕ

pub new_user : Persona → String → Bool → User
new_user p password is_pre_existing = record {
  id = some null;
  username = p.username;
  email = p.email;
  first_name = p.first_name;
  last_name = p.last_name;
  display_name = p.display_name;
  locale = p.locale;
  language = p.language;
  password = password;
  token = some null;
  accounts = arr nil;
  is_pre_existing = is_pre_existing;
  session_start_time = none;
  last_action_time = none;
}

module _ {F : Type 0} (settings : Settings F) where
  pub generate_simulation_user : ℕ → Action (World F) User
  unfolding new_user
  generate_simulation_user user_number w = elim (get_profile_for_user_number user_number) [
    | none ↦ (thrown type_error, w)
    | some p ↦ (returned (new_user p settings.password true), w)
  ]

  pub generate_new_user : Numbers F → Action (World F) User
  unfolding new_user
  generate_new_user N w =
      let (o, w') = get_random_profile N w in
      elim o [
        | thrown e ↦ (thrown e, w')
        | returned none ↦ (thrown type_error, w')
        | returned (some p) ↦ (returned (new_user p settings.password false), w')
      ]

abbrev pub set_auth_token : Option Json → User → User
set_auth_token token u = record u { token = token }

abbrev pub is_authenticated : User → Bool
is_authenticated u = truthy? u.token

-- What a session works on.
pub record State (F : Type 0) : Type 0 where
  pub world : World F
  pub user : User

module _ {F : Type 0} where
  -- A part that leaves the user alone.
  abbrev pub outside : {A : Type 0} → Action (World F) A → Action (State F) A
  outside m s = let (o, w) = m s.world in (o, record s { world = w })

  abbrev pub current : Action (State F) User
  current s = (returned s.user, s)

  abbrev pub update : (User → User) → Action (State F) (Unit {0})
  update f s = (returned tt, record s { user = f s.user })

  pub update_last_action : Action (State F) (Unit {0})
  update_last_action = do t ← outside now; update (λ u. record u { last_action_time = some t })

  unfoldable pub start_session : Action (State F) (Unit {0})
  start_session = do
    t ← outside now
    t' ← outside now
    update (λ u. record u { session_start_time = some t; last_action_time = some t' })

  pub get_session_duration : Action (State F) ℕ
  get_session_duration s = elim s.user.session_start_time [
    | none ↦ (returned 0, s)
    | some t ↦
        let (o, w) = now s.world in
        elim o [
          | thrown e ↦ (thrown e, record s { world = w })
          | returned t' ↦ (returned (t' - t), record s { world = w })
        ]
  ]
