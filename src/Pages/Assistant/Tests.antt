-- ===== src/Pages/Assistant/Tests.antt =====
-- A conversation with the assistant on a server of the samples.
use mathlib.Core.List.{◌++◌}
use microsvc.Prelude.{String, none, some, false, [], ◌∷◌, str, obj, field, end, ◌≡◌, refl}
use microsvc.Proxy.{Upstream}
use microsvc.Pages.Assistant.{
  Page, opened, question, user, reply_of, asked_and_answered, send_message, answered, typed,
  clicked, arrived, start, next,
}
use microsvc.Pages.Assistant.Laws.{
  IsConversation, Reach-IsConversation, service_answer, asked_and_answered_lem,
}
use microsvc.Samples.{server, respond_laws}

abbrev trim : String → String
trim s = s

abbrev typing : Page
typing = record opened { input = "hello" }

abbrev waiting : Page
waiting = send_message trim none typing

Reach-IsConversation_example : IsConversation (answered none waiting)
unfolding send_message
Reach-IsConversation_example = Reach-IsConversation {trim = trim} {page = answered none waiting} (
    next (next (next start (typed opened "hello")) (clicked typing none))
      (arrived waiting none refl))

-- The service replies with results, and a status that says it failed.
abbrev reply : Upstream
reply = record { status = 502; body = some (obj (field "results" (str "both") end)) }

asked_and_answered_example :
    let body = obj (field "message" (str "hello") end) in
    asked_and_answered (server (λ f. some reply)) trim none typing ≡ record {
      messages = [] ++ (user "hello" ∷ reply_of (some (service_answer (some reply))) ∷ []);
      input = "";
      is_loading = false;
      sent = [] ++ question none "hello" ∷ [];
    }
asked_and_answered_example =
    asked_and_answered_lem (server (λ f. some reply)) (respond_laws (λ f. some reply)) trim none
      typing refl refl
