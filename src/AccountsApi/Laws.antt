-- ===== src/AccountsApi/Laws.antt =====
-- Freezing, unfreezing and closing an account, and the addresses of the calls.
use microsvc.Prelude.{ℕ, ◌≡◌, refl, [], ◌∷◌, ◌⧺◌, show, Json, str, obj, field, end}
use microsvc.Client
use microsvc.Web.{Cookies, World, json}
use microsvc.Client.Calls.{Call, getting, patching, request_of, run-network}
use microsvc.Client.Laws.{run-sent}
use microsvc.AccountsApi.{
  AccountStatus, active, frozen, closed, status_text, freeze_account, unfreeze_account,
  close_account, get_accounts, get_account, create_account, get_account_summary,
  get_account_balance, update_account_status,
}
use microsvc.ApiUtils.Tables
use microsvc.ApiUtils.Tables.{account_address}

abbrev pub status_call : ℕ → AccountStatus → Call
status_call id status =
    patching ("/api/accounts/" ⧺ show id ⧺ "/status")
      (json (obj (field "status" (str (status_text status)) end)))

-- Freezing, unfreezing and closing an account each send exactly one request, a change of the
-- status of that account to frozen, active and closed.
pub status_changes-sent :
    {Jar : Type 0} ⦃C : Cookies Jar⦄ (id : ℕ) (w : World Jar)
    → ((freeze_account id w).1.sent ≡ request_of (status_call id frozen) w ∷ w.sent)
      × ((unfreeze_account id w).1.sent ≡ request_of (status_call id active) w ∷ w.sent)
      × ((close_account id w).1.sent ≡ request_of (status_call id closed) w ∷ w.sent)
unfolding freeze_account unfreeze_account close_account
status_changes-sent id w = (
  (run-sent (status_call id frozen) w).0,
  (run-sent (status_call id active) w).0,
  (run-sent (status_call id closed) w).0,
)

-- The calls on accounts go to the addresses of the table of `index.ts`.
accounts_at_addresses :
    {Jar : Type 0} ⦃C : Cookies Jar⦄ (id : ℕ) (account : Json) (s : AccountStatus) (w : World Jar)
    → (get_accounts w ≡ Client.get (account_address Tables.AccountEndpoint.base) [] w)
      × (create_account account w
          ≡ Client.post (account_address Tables.AccountEndpoint.base) (json account) [] w)
      × (get_account_summary w ≡ Client.get (account_address Tables.AccountEndpoint.summary) [] w)
      × (get_account_balance id w
          ≡ Client.get (account_address (Tables.AccountEndpoint.balance id)) [] w)
      × (update_account_status id s w
          ≡ Client.patch
              (account_address (Tables.AccountEndpoint.status id))
              (json (obj (field "status" (str (status_text s)) end)))
              w)
unfolding get_accounts create_account get_account_summary get_account_balance update_account_status
accounts_at_addresses id account s w = (refl, refl, refl, refl, refl)

pub get_account-network :
    {Jar : Type 0} ⦃C : Cookies Jar⦄ (id : ℕ) (w : World Jar)
    → (get_account id w).1.network ≡ w.network
unfolding get_account
get_account-network id w = run-network (getting ("/api/accounts/" ⧺ show id) []) w
