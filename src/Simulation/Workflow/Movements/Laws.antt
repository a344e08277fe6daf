-- ===== src/Simulation/Workflow/Movements/Laws.antt =====
-- Which account a transfer goes to.
use microsvc.Prelude.{
  ℕ, zero, suc, ◌≢◌, false, Option, none, some, ◌≡◌, refl, arith, Json, null, arr, Fields, Items,
  nil, cons, get, Bool-cases, inl, inr,
}
use microsvc.Simulation.Actions.{returned, Outcome-cases}
use microsvc.Simulation.Users.{State}
use microsvc.Simulation.Workflow.Steps.{Setup, item, property, generate_random_amount}
use microsvc.Simulation.Workflow.Movements.{
  same_id, other_account, transfer_data, transfer_to, transfer_fields, too_low, bounded,
}

-- The account that was found: where it stands, and that its `id` is another one.
pub record IsOther (accounts : Items) (k : Option ℕ) (id : Option Json) (account : Json)
    : Type 0 where
  pub place : ℕ
  pub found : item accounts place ≡ some account
  pub elsewhere : k ≢ some place
  pub differs : same_id (get "id" account) id ≡ false

other_account-IsOther :
    (accounts : Items) (k : Option ℕ) (id : Option Json) (account : Json)
    → other_account accounts k id ≡ returned (some account)
    → IsOther accounts k id account
unfolding other_account
other_account-IsOther nil k id account e = absurd (ground arith)
other_account-IsOther (cons null accounts) k id account e = absurd (ground arith)
other_account-IsOther (cons v accounts) (some zero) id account e =
    let o = other_account-IsOther accounts none id account (ground arith) in
    record {
      place = suc o.place;
      found = o.found;
      elsewhere = λ q. ground arith;
      differs = o.differs;
    }
other_account-IsOther (cons v accounts) (some (suc k)) id account e =
    elim (Bool-cases (same_id (get "id" v) id)) [
      | inl same ↦
          let o = other_account-IsOther accounts (some k) id account (ground arith) in
          record {
            place = suc o.place;
            found = o.found;
            elsewhere = λ q. o.elsewhere (ground arith);
            differs = o.differs;
          }
      | inr other ↦ record {
        place = 0;
        found = ground arith;
        elsewhere = λ q. ground arith;
        differs = ground arith;
      }
    ]
other_account-IsOther (cons v accounts) none id account e =
    elim (Bool-cases (same_id (get "id" v) id)) [
      | inl same ↦
          let o = other_account-IsOther accounts none id account (ground arith) in
          record {
            place = suc o.place;
            found = o.found;
            elsewhere = λ q. ground arith;
            differs = o.differs;
          }
      | inr other ↦ record {
        place = 0;
        found = ground arith;
        elsewhere = λ q. ground arith;
        differs = ground arith;
      }
    ]

-- What has an identity to read is there.
property-there :
    (other id' : Option Json)
    → property "id" other ≡ returned id'
    → (d : Json) × (other ≡ some d) × (get "id" d ≡ id')
property-there none id' e = absurd (ground arith)
property-there (some null) id' e = absurd (ground arith)
property-there (some d) id' e = (d, refl, ground arith)

module _ {F : Type 0} (S : Setup F) where
  -- A transfer that is about to be sent: its destination, and how its fields come about.
  pub record IsTransfer (accounts : Items) (k : ℕ) (account : Json) (data' : Fields) : Type 0 where
    pub destination : Json
    pub other : IsOther accounts (some k) (get "id" account) destination
    pub amount : Option F
    pub fields : data' ≡ transfer_fields S amount (get "id" account) (get "id" destination)
    pub affordable :
        too_low S
          (bounded S (get "balance" account) S.settings.transactions.transfer_range)
          S.settings.transactions.transfer_range
        ≡ false

  -- What is known of a transfer once its destination was looked for.
  record IsSent (id balance other : Option Json) (data' : Fields) : Type 0 where
    destination : Json
    there : other ≡ some destination
    amount : Option F
    fields : data' ≡ transfer_fields S amount id (get "id" destination)
    affordable :
        too_low S
          (bounded S balance S.settings.transactions.transfer_range)
          S.settings.transactions.transfer_range
        ≡ false

  transfer_to-IsSent :
      (id balance other : Option Json) (s : State F) (data' : Fields)
      → (transfer_to S id balance other s).0 ≡ returned (some data')
      → IsSent id balance other data'
  unfolding transfer_to
  transfer_to-IsSent id balance other s data' e =
      let range = S.settings.transactions.transfer_range in
      elim (Bool-cases (too_low S (bounded S balance range) range)) [
        | inl short ↦ absurd (ground arith)
        | inr enough ↦
            elim (Outcome-cases
              (generate_random_amount S range.min (bounded S balance range) s).0) [
                | inr (x, failed) ↦ absurd (ground arith)
                | inl (amount, drawn) ↦ elim (Outcome-cases (property "id" other)) [
                  | inr (x, failed) ↦ absurd (ground arith)
                  | inl (id', read) ↦
                      let (d, there, its) = property-there other id' read in
                      record {
                        destination = d;
                        there = there;
                        amount = amount;
                        fields = ground arith;
                        affordable = enough;
                      }
                ]
              ]
      ]

  -- A session's transfer goes from the account that was picked to one in another place of the list
  -- with another identity, and is only made where the balance allows the least transfer.
  pub transfer_data-IsTransfer :
      (accounts : Items) (k : ℕ) (account : Json) (s : State F) (data' : Fields)
      → (transfer_data S (arr accounts) k (some account) s).0 ≡ returned (some data')
      → IsTransfer accounts k account data'
  unfolding transfer_data
  transfer_data-IsTransfer nil k account s data' e = absurd (ground arith)
  transfer_data-IsTransfer (cons v nil) k account s data' e = absurd (ground arith)
  transfer_data-IsTransfer (cons v (cons w vs)) k null s data' e = absurd (ground arith)
  transfer_data-IsTransfer (cons v (cons w vs)) k account s data' e =
      elim (Outcome-cases (other_account (cons v (cons w vs)) (some k) (get "id" account))) [
        | inr (x, failed) ↦ absurd (ground arith)
        | inl (found, searched) ↦
            let sent =
              transfer_to-IsSent (get "id" account) (get "balance" account) found s data'
                (ground arith) in
            record {
              destination = sent.destination;
              other =
                  other_account-IsOther (cons v (cons w vs)) (some k) (get "id" account)
                    sent.destination (ground (arith, sent.there));
              amount = sent.amount;
              fields = sent.fields;
              affordable = sent.affordable;
            }
      ]
