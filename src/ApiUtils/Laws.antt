-- ===== src/ApiUtils/Laws.antt =====
-- The readings of what the client returns.
use microsvc.Prelude.{not, ◌≡◌, refl, arith, inl, inr, truthy, truthy?}
use microsvc.Web.{Cookies, World}
use microsvc.Client.{on_error}
use microsvc.Client.Errors.{ApiResponse, handle_error}
use microsvc.Client.Errors.Messages.{IsFailure, handle_error-IsFailure}
use microsvc.Client.Calls.{Call, run, reply_to, sent_on, run-replied, run-failed}
use microsvc.Client.Laws.{Reply-cases}
use microsvc.ApiUtils.{is_success, is_error, get_error_message, has_data, get_data}

-- What a caller can rely on: a result is a success or an error; it has a message that is not empty
-- exactly when it is an error, and data exactly when it is a success; and data that is truthy is
-- read as such.
pub record IsConsistent (r : ApiResponse) : Type 0 where
  pub either : is_error r ≡ not (is_success r)
  pub message : truthy (get_error_message r) ≡ is_error r
  pub data_there : has_data r ≡ is_success r
  pub data_read : truthy (get_data r) ≡ truthy? r.result

failure-IsConsistent : (r : ApiResponse) → IsFailure r → IsConsistent r
unfolding is_success is_error get_error_message has_data get_data
failure-IsConsistent r f = record {
  either = refl;
  message = ground arith;
  data_there = ground arith;
  data_read = ground arith;
}

-- Every result of every verb of the client is a success or an error to `ApiUtils`; it has a
-- message that is not empty exactly when it is an error, and data exactly when it is a success;
-- and data that is truthy is read as such.
pub run-IsConsistent :
    {Jar : Type 0} ⦃C : Cookies Jar⦄ (call : Call) (w : World Jar) → IsConsistent (run call w).0
unfolding is_success is_error get_error_message has_data get_data
run-IsConsistent call w = elim (Reply-cases (reply_to call w)) [
  | inl (r, h) ↦ ground (arith, run-replied call w r h)
  | inr (e, h) ↦
      let e' = (on_error e (sent_on call w)).0 in
      ground (
        arith,
        run-failed call w e h,
        failure-IsConsistent (handle_error e') (handle_error-IsFailure e'),
      )
]
