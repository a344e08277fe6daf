-- ===== src/Simulation/Workflow/Steps/Login.antt =====
-- A login that fails ends the step with its exception.
use microsvc.Prelude.{◌≡◌, arith}
use microsvc.Web.{Error}
use microsvc.Simulation.Actions.{thrown}
use microsvc.Simulation.Client.Refused.{IsRefused}
use microsvc.Simulation.Users.{State}
use microsvc.Simulation.Workflow.Steps.{Setup, perform_login, credentials}

pub perform_login-thrown :
    {F : Type 0} (S : Setup F) (s : State F) (e : Error)
    → (r : IsRefused S.numbers S.api_client (credentials s.user.username s.user.password) e s.world)
    → perform_login S s ≡ (thrown e, record s { world = r.world })
unfolding perform_login
perform_login-thrown S s e r = ground (arith, r.result)
