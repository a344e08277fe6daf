-- ===== src/Forms/View/Laws.antt =====
-- When the forms are shown, when their pages throw, and what a second submission does.
use microsvc.Prelude.{
  Bool, true, false, none, some, ◌∷◌, Json, arr, obj, Items, cons, Fields, get, truthy, ◌≡◌, inl,
  inr, ap, ◌∙◌, arith,
}
use microsvc.Web.{Cookies}
use microsvc.Token.{Platform}
use microsvc.Client.Calls.{request_of}
use microsvc.AccountsApi
use microsvc.Forms.{
  Language, Page, loaded, fetch_account_details, fetch_transfer_details, submit_deposit, submitted,
}
use microsvc.Forms.Checks.{may_deposit}
use microsvc.Forms.Laws.{IsSent, deposit_call, deposited, submit_deposit-guarded}
use microsvc.Pages.{Display, mapped}
use microsvc.Forms.View.{Kind, transfer, not_found, render}

module _ {Jar : Type 0} ⦃C : Cookies Jar⦄ (p : Platform) (l : Language) where
  entries_kept :
      (page : Page Jar)
      → ((submit_deposit p l page).amount ≡ page.amount)
        × ((submit_deposit p l page).description ≡ page.description)
  unfolding submit_deposit submitted
  entries_kept page = ground arith

  submit_deposit-IsSent :
      (page : Page Jar)
      → may_deposit l page ≡ true
      → IsSent page (submit_deposit p l page) (deposit_call p l page) (deposited p l page).0
  submit_deposit-IsSent page allowed = elim (submit_deposit-guarded p l page) [
    | inl (may, is_sent) ↦ is_sent
    | inr (may_not, down) ↦ absurd (cc)
  ]

  -- A deposit that may be sent and was sent may be sent again at once: the form keeps its entries and
  -- its button works, so that a second submission sends a second request.
  pub submit_deposit_twice :
      (page : Page Jar)
      → may_deposit l page ≡ true
      → let once = submit_deposit p l page in
        (may_deposit l once ≡ true)
        × (once.is_submitting ≡ false)
        × ((submit_deposit p l once).world.sent
            ≡ request_of (deposit_call p l once) once.world
              ∷ request_of (deposit_call p l page) page.world
              ∷ page.world.sent)
  submit_deposit_twice page allowed =
      let (amount, description) = entries_kept page in
      let again : may_deposit l (submit_deposit p l page) ≡ true =
        rw (amount, description) allowed in
      let first = submit_deposit-IsSent page allowed in
      let second = submit_deposit-IsSent (submit_deposit p l page) again in
      (
        again,
        first.finished,
        second.one_request
            ∙ ap
                (λ rest.
                  request_of (deposit_call p l (submit_deposit p l page))
                    (submit_deposit p l page).world
                  ∷ rest)
                first.one_request,
      )

module _ {Value : Type 0} (d : Display Value) where
  -- A page whose account cannot be loaded shows no form, whichever of the three it is.
  pub failed_load_hides_form :
      {Jar : Type 0} ⦃C : Cookies Jar⦄ (p : Platform) (l : Language) (is_demo : Bool) (kind : Kind)
      (page : Page Jar)
      → page.account ≡ none
      → loaded (AccountsApi.get_account (l.parse_int page.account_id) page.world).0 ≡ none
      → (render d kind (fetch_account_details p l page) ≡ some not_found)
        × (render d kind (fetch_transfer_details p l is_demo page) ≡ some not_found)
  unfolding fetch_account_details fetch_transfer_details render
  failed_load_hides_form p l is_demo kind page missing failed = (ground arith, ground arith)

  -- One account without a currency among the destinations makes the whole page of a transfer throw.
  pub transfer_throws :
      {Jar : Type 0} (page : Page Jar) (account : Json) (fields : Fields) (others : Items)
      → page.is_loading ≡ false
      → page.account ≡ some account
      → truthy account ≡ true
      → page.available_accounts ≡ arr (cons (obj fields) others)
      → get "currency" (obj fields) ≡ none
      → render d transfer page ≡ none
  unfolding render mapped
  transfer_throws page account fields others ready is_account is_there are bad = ground arith
