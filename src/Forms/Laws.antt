-- ===== src/Forms/Laws.antt =====
-- When a form sends its request, and what it shows otherwise.
use microsvc.Prelude.{
  ℕ, String, true, false, none, some, [], ◌∷◌, str, ◌≡◌, ◌⊎◌, inl, inr, arith, ap, ◌∙◌, ◌||◌,
  Bool-cases,
}
use microsvc.Web.{Cookies, World, json}
use microsvc.Token.{Platform}
use microsvc.Client.Errors.{ApiResponse}
use microsvc.Client.Calls.{Call, posting, request_of}
use microsvc.TransactionsApi
use microsvc.TransactionsApi.{movement, transfer_data}
use microsvc.TransactionsApi.Laws.{movements-IsAudited}
use microsvc.Forms.Checks.{
  may_deposit, may_withdraw, may_transfer, deposit_refusal-none, deposit_refusal-some,
  withdrawal_refusal-none, withdrawal_refusal-some, transfer_refusal-none, transfer_refusal-some,
}
use microsvc.Forms.{
  Language, Page, deposit_refusal, withdrawal_refusal, transfer_refusal, currency, submitted,
  submit_deposit, submit_withdrawal, submit_transfer,
}

module _ {Jar : Type 0} (page after : Page Jar) where
  -- A submission that is turned down shows why, and changes nothing else.
  pub record IsTurnedDown : Type 0 where
    pub text : String
    pub only_error : after ≡ record page { error = some (str text) }

  -- A submission that sends a call and shows whether it succeeded.
  pub record IsSent ⦃C : Cookies Jar⦄ (call : Call) (r : ApiResponse) : Type 0 where
    pub one_request : after.world.sent ≡ request_of call page.world ∷ page.world.sent
    pub finished : after.is_submitting ≡ false
    pub succeeds : after.success ≡ (r.success || page.success)

module _ {Jar : Type 0} where
  submitted_lem :
      (otherwise : String) (out : ApiResponse × World Jar) (page : Page Jar)
      → let after = submitted otherwise out page in
        (after.world ≡ out.1)
        × (after.is_submitting ≡ false)
        × (after.success ≡ (out.0.success || page.success))
  unfolding submitted
  submitted_lem otherwise (r, w) page = ground arith

module _ {Jar : Type 0} ⦃C : Cookies Jar⦄ (p : Platform) (l : Language) (page : Page Jar) where
  abbrev pub id : ℕ
  id = l.parse_int page.account_id

  abbrev pub target : ℕ
  target = l.parse_int page.to_account_id

  abbrev pub withdrawal_call : Call
  withdrawal_call =
      posting "/api/transactions/withdraw"
        (json (
          movement id (l.parse_float page.amount) (l.trim page.description)
            (some (currency page.account))))
        []

  abbrev pub transfer_call : Call
  transfer_call =
      posting "/api/transactions/transfer"
        (json (
          transfer_data id target (l.parse_float page.amount) (l.trim page.description)
            (some (currency page.account))))
        []

  abbrev pub deposit_call : Call
  deposit_call =
      posting "/api/transactions/deposit"
        (json (
          movement id (l.parse_float page.amount) (l.trim page.description)
            (some (currency page.account))))
        []

  abbrev pub transferred : ApiResponse × World Jar
  transferred =
      TransactionsApi.create_transfer p id target (l.parse_float page.amount)
        (l.trim page.description) (some (currency page.account)) page.world

  abbrev pub withdrawn : ApiResponse × World Jar
  withdrawn =
      TransactionsApi.create_withdrawal p id (l.parse_float page.amount) (l.trim page.description)
        (some (currency page.account)) page.world

  abbrev pub deposited : ApiResponse × World Jar
  deposited =
      TransactionsApi.create_deposit p id (l.parse_float page.amount) (l.trim page.description)
        (some (currency page.account)) page.world

  audits :
      (withdrawn.1.sent ≡ request_of withdrawal_call page.world ∷ page.world.sent)
      × (transferred.1.sent ≡ request_of transfer_call page.world ∷ page.world.sent)
      × (deposited.1.sent ≡ request_of deposit_call page.world ∷ page.world.sent)
  audits =
      let (d, w, t) =
        movements-IsAudited p id target (l.parse_float page.amount) (l.trim page.description)
          (some (currency page.account)) page.world in
      (w.sent, t.sent, d.sent)

  submit_deposit-passed :
      deposit_refusal l page ≡ none
      → submit_deposit p l page ≡ submitted "Failed to process deposit" deposited page
  unfolding submit_deposit
  submit_deposit-passed h = ground arith

  submit_withdrawal-passed :
      withdrawal_refusal l page p ≡ none
      → submit_withdrawal p l page ≡ submitted "Failed to process withdrawal" withdrawn page
  unfolding submit_withdrawal
  submit_withdrawal-passed h = ground arith

  submit_transfer-passed :
      transfer_refusal l page p ≡ none
      → submit_transfer p l page ≡ submitted "Failed to process transfer" transferred page
  unfolding submit_transfer
  submit_transfer-passed h = ground arith

  -- A submitted transfer is sent exactly when the amount is not at most zero and no more than the
  -- balance that was loaded, and there is a description and a destination other than the account
  -- itself. It is then sent once, as it was entered, and counts as a success when its call succeeds;
  -- otherwise nothing is sent, and nothing but the error changes.
  pub submit_transfer-guarded :
      let after = submit_transfer p l page in
      ((may_transfer l page p ≡ true) × IsSent page after transfer_call transferred.0)
      ⊎ ((may_transfer l page p ≡ false) × IsTurnedDown page after)
  unfolding submit_transfer
  submit_transfer-guarded = elim (Bool-cases (may_transfer l page p)) [
    | inr stopped ↦
        let (text, why) = transfer_refusal-some l page p stopped in
        inr (stopped, record { text = text; only_error = ground arith })
    | inl allowed ↦
        let (world, finished, succeeds) =
          submitted_lem "Failed to process transfer" transferred page in
        rw (submit_transfer-passed (transfer_refusal-none l page p allowed)) (
          inl (
            allowed,
            record {
              one_request = ap (λ (w : World Jar). w.sent) world ∙ audits.1;
              finished = finished;
              succeeds = succeeds;
            },
          ))
  ]

  -- A submitted withdrawal is sent exactly when the amount is not at most zero and no more than the
  -- balance that was loaded, and there is a description. It is then sent once, as it was entered, and
  -- counts as a success when its call succeeds; otherwise nothing is sent, and nothing but the error
  -- changes.
  pub submit_withdrawal-guarded :
      let after = submit_withdrawal p l page in
      ((may_withdraw l page p ≡ true) × IsSent page after withdrawal_call withdrawn.0)
      ⊎ ((may_withdraw l page p ≡ false) × IsTurnedDown page after)
  unfolding submit_withdrawal
  submit_withdrawal-guarded = elim (Bool-cases (may_withdraw l page p)) [
    | inr stopped ↦
        let (text, why) = withdrawal_refusal-some l page p stopped in
        inr (stopped, record { text = text; only_error = ground arith })
    | inl allowed ↦
        let (world, finished, succeeds) =
          submitted_lem "Failed to process withdrawal" withdrawn page in
        rw (submit_withdrawal-passed (withdrawal_refusal-none l page p allowed)) (
          inl (
            allowed,
            record {
              one_request = ap (λ (w : World Jar). w.sent) world ∙ audits.0;
              finished = finished;
              succeeds = succeeds;
            },
          ))
  ]

  -- A submitted deposit is sent exactly when the amount is not at most zero and there is a
  -- description. It is then sent once, as it was entered, and counts as a success when its call
  -- succeeds; otherwise nothing is sent, and nothing but the error changes.
  pub submit_deposit-guarded :
      let after = submit_deposit p l page in
      ((may_deposit l page ≡ true) × IsSent page after deposit_call deposited.0)
      ⊎ ((may_deposit l page ≡ false) × IsTurnedDown page after)
  unfolding submit_deposit
  submit_deposit-guarded = elim (Bool-cases (may_deposit l page)) [
    | inr stopped ↦
        let (text, why) = deposit_refusal-some l page stopped in
        inr (stopped, record { text = text; only_error = ground arith })
    | inl allowed ↦
        let (world, finished, succeeds) =
          submitted_lem "Failed to process deposit" deposited page in
        rw (submit_deposit-passed (deposit_refusal-none l page allowed)) (
          inl (
            allowed,
            record {
              one_request = ap (λ (w : World Jar). w.sent) world ∙ audits.2;
              finished = finished;
              succeeds = succeeds;
            },
          ))
  ]
