-- ===== src/Simulation/Workflow/Laws.antt =====
-- What every session does, and what a session does that cannot log in.
use microsvc.Prelude.{ℕ, true, ◌≡◌, refl, arith}
use microsvc.Web.{Error, failed}
use microsvc.Simulation.Actions.{returned, thrown}
use microsvc.Simulation.Client.Endpoints.{IsRepeated}
use microsvc.Simulation.Client.Refused.{login-IsRefused, login_request}
use microsvc.Simulation.Users.{State, start_session}
use microsvc.Simulation.Workflow.Steps.{Setup, credentials, perform_login}
use microsvc.Simulation.Workflow.Steps.Login.{perform_login-thrown}
use microsvc.Simulation.Workflow.{session, execute_existing_user_workflow, execute_user_session}

-- A session reports no failure, whatever happened to it.
pub execute_user_session_total :
    {F : Type 0} (S : Setup F) (s : State F) → (execute_user_session S s).0 ≡ returned tt
unfolding execute_user_session
execute_user_session_total S s = ground arith

-- The state of a session whose login was turned down.
pub record IsTurnedDown {F : Type 0} (S : Setup F) (s t : State F) : Type 0 where
  pub still_without_token : t.user.token ≡ s.user.token
  pub same_accounts : t.user.accounts ≡ s.user.accounts
  pub traffic :
      IsRepeated S.numbers S.api_client S.api_client.max_retries 0
        (login_request S.numbers S.api_client (credentials s.user.username s.user.password))
        s.world
        t.world

-- A session starts with the login, and ends where that fails.
session-thrown :
    {F : Type 0} (S : Setup F) (s t : State F) (e : Error)
    → s.user.is_pre_existing ≡ true
    → perform_login S (start_session s).1 ≡ (thrown e, t)
    → session S s ≡ (thrown e, t)
unfolding session execute_existing_user_workflow start_session
session-thrown S s t e old h = ground arith

execute_user_session-caught :
    {F : Type 0} (S : Setup F) (s t : State F) (e : Error)
    → session S s ≡ (thrown e, t)
    → execute_user_session S s ≡ (returned tt, t)
unfolding execute_user_session
execute_user_session-caught S s t e h = ground arith

-- Where the server turns down each login of an existing user, the user's session sends nothing but
-- that login, at most as often as the retries allow, keeps its user's token and accounts, and yet
-- ends without an exception.
pub execute_user_session-IsTurnedDown :
    {F : Type 0} (S : Setup F) (s : State F) (e : Error)
    → s.user.is_pre_existing ≡ true
    → ((n : ℕ)
        → s.world.network n
            (login_request S.numbers S.api_client (credentials s.user.username s.user.password))
          ≡ failed e)
    → ((execute_user_session S s).0 ≡ returned tt) × IsTurnedDown S s (execute_user_session S s).1
unfolding start_session
execute_user_session-IsTurnedDown S s e old h =
    let started = (start_session s).1 in
    let r =
      login-IsRefused S.numbers S.api_client (credentials s.user.username s.user.password) e
        started.world h in
    let t : State _ = record started { world = r.world } in
    let ends =
      execute_user_session-caught S s t e
        (session-thrown S s t e old (perform_login-thrown S started e r)) in
    rw ends (
      refl,
      record {
        still_without_token = refl;
        same_accounts = refl;
        traffic = record {
          again = r.traffic.again;
          in_time = r.traffic.in_time;
          sends = r.traffic.sends;
          waits_between = r.traffic.waits_between;
        };
      },
    )
