-- ===== src/Forms/Checks.antt =====
-- Which entries the forms let through, as one condition for each form.
use microsvc.Prelude.{
  String, Bool, true, false, not, ◌&&◌, none, some, ◌≡◌, arith, is_nonempty, str_eq, Option-cases,
  inl, inr,
}
use microsvc.Token.{Platform}
use microsvc.Forms.{
  Language, Page, at_most_zero, exceeds, deposit_refusal, withdrawal_refusal, transfer_refusal,
}

module _ {Jar : Type 0} (l : Language) (page : Page Jar) where
  -- An amount that is not at most zero, and a description.
  abbrev pub may_deposit : Bool
  may_deposit =
      is_nonempty page.amount
      && not (at_most_zero (l.parse_float page.amount))
      && is_nonempty (l.trim page.description)

  -- No more than the balance that was loaded, either.
  abbrev pub may_withdraw : Platform → Bool
  may_withdraw p = may_deposit && not (exceeds p (l.parse_float page.amount) page.account)

  -- And a destination, which is another account.
  abbrev pub may_transfer : Platform → Bool
  may_transfer p =
      may_withdraw p
      && is_nonempty page.to_account_id
      && not (str_eq page.to_account_id page.account_id)

  pub deposit_refusal-none : may_deposit ≡ true → deposit_refusal l page ≡ none
  unfolding deposit_refusal
  deposit_refusal-none h = ground arith

  pub deposit_refusal-some :
      may_deposit ≡ false → (text : String) × (deposit_refusal l page ≡ some text)
  unfolding deposit_refusal
  deposit_refusal-some h = elim (Option-cases (deposit_refusal l page)) [
    | inl passed ↦ absurd (ground arith)
    | inr refusal ↦ refusal
  ]

  module _ (p : Platform) where
    pub withdrawal_refusal-none : may_withdraw p ≡ true → withdrawal_refusal l page p ≡ none
    unfolding withdrawal_refusal
    withdrawal_refusal-none h = ground arith

    pub withdrawal_refusal-some :
        may_withdraw p ≡ false → (text : String) × (withdrawal_refusal l page p ≡ some text)
    unfolding withdrawal_refusal
    withdrawal_refusal-some h = elim (Option-cases (withdrawal_refusal l page p)) [
      | inl passed ↦ absurd (ground arith)
      | inr refusal ↦ refusal
    ]

    pub transfer_refusal-none : may_transfer p ≡ true → transfer_refusal l page p ≡ none
    unfolding transfer_refusal
    transfer_refusal-none h = ground arith

    pub transfer_refusal-some :
        may_transfer p ≡ false → (text : String) × (transfer_refusal l page p ≡ some text)
    unfolding transfer_refusal
    transfer_refusal-some h = elim (Option-cases (transfer_refusal l page p)) [
      | inl passed ↦ absurd (ground arith)
      | inr refusal ↦ refusal
    ]
